-- ===== src/Api.antt =====
-- The API objects (pkg/apis/vihara/v1alpha1 and the parts of the Kubernetes types that the
-- controller reads or writes).
mod Meta
mod Core
mod MtTypes
mod MtJobTypes
unfoldable pub use Meta.*
unfoldable pub use Core.*
unfoldable pub use MtTypes.*
unfoldable pub use MtJobTypes.*
