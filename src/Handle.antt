-- ===== src/Handle.antt =====
-- mw/handle.c and inc/u_handle.h: the handle library. `State` holds the types, the tables and the
-- lookup of a handle; `Alloc`, `Free`, `Link`, `Aux` and `Access` hold the operations; the other
-- modules are about them.
pub mod State
pub mod Alloc
pub mod Free
pub mod Link
pub mod Aux
pub mod Access
pub mod Lookup
pub mod Release
pub mod Pool
pub mod Linked
mod Examples
