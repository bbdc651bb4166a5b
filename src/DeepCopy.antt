-- ===== src/DeepCopy.antt =====
-- api/v1alpha1/zz_generated.deepcopy.go: the deep copies of the custom resources, over a memory of
-- cells, and what makes a copy deep.
pub mod Memory
pub mod Shape
pub mod Rules
pub mod Deep
pub mod Structs
pub mod Cells
pub mod Fields
pub mod Storages
pub mod Structures
pub mod Into
pub mod Methods
pub mod Shapes
pub mod Parts
pub mod Laws
pub mod Independence
