-- ===== src/Kube.antt =====
-- The Kubernetes side: the object types that the operator reads and writes (the fields that it
-- uses), and the libraries and the API server that it calls, as interfaces.
pub mod Meta
pub mod Pod
pub mod Objects
pub mod Exec
pub mod Libs
pub mod Client
pub mod Recording
