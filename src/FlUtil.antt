-- ===== src/FlUtil.antt =====
-- src/fl_util.c: the file list, a tree in memory, and the search through it.
mod Sample
pub mod Change
pub mod Path
pub mod Search
use ncdc.Prelude.{Bytes, ℕ, Bool, List}

-- What is modelled of a `fl_list_t` itself. `tth` and `islocal` play no part in what is modelled here.
pub record FlInfo : Type 0 where
  pub name : Bytes
  pub size : ℕ
  pub isfile : Bool
  pub hastth : Bool

-- The array `sub`: an item with its own array, and the items behind it. That of a file is NULL, which is
-- modelled as the empty one.
pub data Sub : Type 0 where
  nothing : Sub
  item : FlInfo → Sub → Sub → Sub

-- A pointer to a `fl_list_t`: what it points to, and what is found along `parent`, the nearest first and the
-- root last.
pub record FlList : Type 0 where
  pub parents : List FlInfo
  pub info : FlInfo
  pub sub : Sub
