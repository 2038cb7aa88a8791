-- ===== src/Handle/State.antt =====
-- mw/handle.c: the control structures, the global variables, and how a handle names a structure.
-- `pt_h_ctrl_arr` is a function from indices; the element 0 is never in use. Structures of the type
-- HANDLE_LINK_T are the callers': they are kept by address in `links`. Pointers are numbers, 0 is
-- NULL. The flags are Booleans.
use multithreading.Prelude.{
  ℕ, ◌+◌, ◌*◌, ◌/◌, ◌%◌, ◌^◌, Bool, false, Option, none, some, ◌==◌, ltb, leb, ◌&&◌, if◌then◌else◌,
}

-- H_CTRL_T. `tag` is the union of `pv_tag` and `pf_aux_free`; `count` is a UINT8, the links and
-- counts of links are UINT16.
pub record HCtrl : Type 0 where
  pub tag : ℕ
  pub obj : ℕ
  pub pf_free : ℕ
  pub next : ℕ
  pub prev : ℕ
  pub aux_next : ℕ
  pub aux_prev : ℕ
  pub aux_link_head : ℕ
  pub aux_link_count : ℕ
  pub e_type : ℕ
  pub count : ℕ
  pub active : Bool
  pub parsing : Bool
  pub linked : Bool
  pub freeing : Bool

-- H_LINK_T
pub record HLink : Type 0 where
  pub head : ℕ
  pub tail : ℕ
  pub h_count : ℕ
  pub parsing : Bool
  pub free_all : Bool

pub record State : Type 0 where
  pub arr : ℕ → HCtrl
  pub free_handles : ℕ
  pub num_total : ℕ
  pub num_free : ℕ
  pub num_peak_used : ℕ
  pub num_used_per_grp : ℕ → ℕ
  pub init : Bool
  pub autofree : ℕ → ℕ
  pub links : ℕ → HLink

-- The codes of inc/u_handle.h without their prefix HR_.
pub data Hr : Type 0 where
  ok inv_arg inv_handle out_of_handles not_enough_mem already_init not_init recursion_error : Hr
  not_allowed already_linked not_linked free_not_allowed inv_aux_head inv_handle_type : Hr

-- How a call ends: it returns, it reaches ABORT, its behaviour is undefined (`fault`), or a loop is not over
-- when its fuel is used up (`unfinished`).
pub data Exec {ℓ} (A : Type ℓ) : Type ℓ where
  ret : A → Exec A
  abort : Exec A
  fault : Exec A
  unfinished : Exec A

abbrev pub null_idx : ℕ
null_idx = 0

-- INV_HANDLE_TYPE
abbrev pub no_handle_type : ℕ
no_handle_type = 0

-- HT_GROUP_SIZE, HT_NB_GROUPS, HT_RES_BY_HANDLE_LIB, HT_AUX_LINK_HEAD
abbrev pub group_size : ℕ
group_size = 64

abbrev pub nb_groups : ℕ
nb_groups = 2

abbrev pub res_by_handle_lib : ℕ
res_by_handle_lib = 64

abbrev pub aux_link_head_type : ℕ
aux_link_head_type = 1

abbrev pub update {ℓ} : {A : Type ℓ} → (ℕ → A) → ℕ → A → ℕ → A
update f i a j = if i == j then a else f j

abbrev pub set_ctrl : State → ℕ → HCtrl → State
set_ctrl st i c = record st { arr = update st.arr i c }

abbrev pub set_link : State → ℕ → HLink → State
set_link st p l = record st { links = update st.links p l }

-- `make_handle`, of the structure at an index.
unfoldable pub make_handle : State → ℕ → ℕ
make_handle st i = i % 2 ^ 16 + (st.arr i).count * 2 ^ 16

-- The lower 32 bits of a HANDLE_T, and their parts.
abbrev pub word_of : ℕ → ℕ
word_of h = h % 2 ^ 32

abbrev pub idx_of : ℕ → ℕ
idx_of h = word_of h % 2 ^ 16

abbrev pub count_of : ℕ → ℕ
count_of h = word_of h / 2 ^ 16 % 2 ^ 8

abbrev pub high_byte : ℕ → ℕ
high_byte h = word_of h / 2 ^ 24

-- The test of `get_h_ctrl_from_handle`.
abbrev pub names_ctrl : State → ℕ → Bool
names_ctrl st h =
    (high_byte h == 0)
    && ltb null_idx (idx_of h)
    && leb (idx_of h) st.num_total
    && ((st.arr (idx_of h)).count == count_of h)
    && (st.arr (idx_of h)).active

-- `get_h_ctrl_from_handle`: the index of the structure, or NULL.
unfoldable pub get_h_ctrl_from_handle : State → ℕ → Option ℕ
get_h_ctrl_from_handle st h = if names_ctrl st h then some (idx_of h) else none

unfoldable pub get_h_ctrl_from_idx : ℕ → Option ℕ
get_h_ctrl_from_idx i = if i == null_idx then none else some i

-- A structure in its first state, linked to `next` in the free list.
abbrev pub blank : ℕ → HCtrl
blank next = record {
  tag = 0;
  obj = 0;
  pf_free = 0;
  next = next;
  prev = null_idx;
  aux_next = null_idx;
  aux_prev = null_idx;
  aux_link_head = null_idx;
  aux_link_count = 0;
  e_type = no_handle_type;
  count = 0;
  active = false;
  parsing = false;
  linked = false;
  freeing = false;
}
