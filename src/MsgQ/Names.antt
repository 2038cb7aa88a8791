-- ===== src/MsgQ/Names.antt =====
-- mw/os_pthread/os_pthread_msg_q.c: the list of the queues by name. A queue is its address; NULL is 0.
-- `names` is the field `s_name` of each; a name is a C string without its NUL. The reference count
-- INT16 is a word of 16 bits. The search has fuel, `none` being the end of it.
use multithreading.Prelude.{
  ℕ, zero, suc, ◌+◌, ◌-◌, ◌%◌, ◌^◌, Bool, true, false, Option, none, some, List, [], ◌∷◌, ◌==◌,
  ◌&&◌, not, if◌then◌else◌, ltb, take,
}
use multithreading.Os.{Osr}
use multithreading.Ring.{Links, store, insert_before, unlink}
use multithreading.MsgQ.{MsgQ, x_msg_q_create}

pub record MsgQList : Type 0 where
  pub links : Links
  pub s_msg_q_list : ℕ
  pub names : ℕ → List ℕ
  pub queues : ℕ → MsgQ

-- MSGQ_NAME_LEN
abbrev pub name_len : ℕ
name_len = 16

abbrev pub same_string : List ℕ → List ℕ → Bool
same_string [] [] = true
same_string [] (c ∷ b) = false
same_string (c ∷ a) [] = false
same_string (c ∷ a) (d ∷ b) = (c == d) && same_string a b

-- `strncmp(a, b, MSGQ_NAME_LEN) == 0`
abbrev pub same_name : List ℕ → List ℕ → Bool
same_name a b = same_string (take name_len a) (take name_len b)

unfoldable pub msg_q_list_add : ℕ → MsgQList → MsgQList
msg_q_list_add t s =
    if not (s.s_msg_q_list == 0)
    then record s { links = insert_before t s.s_msg_q_list s.links }
    else record s {
      s_msg_q_list = t;
      links = record { next = store s.links.next t t; previous = store s.links.previous t t };
    }

unfoldable pub msg_q_list_remove : ℕ → MsgQList → MsgQList
msg_q_list_remove t s =
    if s.links.previous t == t
    then record s { s_msg_q_list = 0 }
    else let l = unlink t s.links in
      record s {
        links = l;
        s_msg_q_list = if s.s_msg_q_list == t then l.next t else s.s_msg_q_list;
      }

-- The loop of `msg_q_find_obj` at the queue `p`; the result 0 is NULL.
unfoldable pub find_loop : (fuel : ℕ) (name : List ℕ) → MsgQList → (p : ℕ) → Option ℕ
find_loop zero name s p = none
find_loop (suc fuel) name s p =
    let rest = find_loop fuel name s (s.links.next p) in
    if same_name (s.names p) name
    then some p
    else if s.links.next p == s.s_msg_q_list
    then some 0
    else rest

unfoldable pub msg_q_find_obj : (fuel : ℕ) (name : List ℕ) → MsgQList → Option ℕ
msg_q_find_obj fuel name s =
    if s.s_msg_q_list == 0 then some 0 else find_loop fuel name s s.s_msg_q_list

abbrev pub set_queue : ℕ → MsgQ → MsgQList → MsgQList
set_queue t q s = record s { queues = λ k. if t == k then q else s.queues k }

abbrev pub set_name : ℕ → List ℕ → MsgQList → MsgQList
set_name t name s = record s { names = λ k. if t == k then name else s.names k }

-- The end of `x_msg_q_create`: a queue that it has made goes into the list.
abbrev pub enter_list :
    ℕ → (name : List ℕ) → Osr × Option MsgQ → MsgQList → Option (Osr × MsgQList × Option ℕ)
enter_list t name (o, none) s = some (o, s, none)
enter_list t name (o, some q) s =
    some (o, msg_q_list_add t (set_queue t q (set_name t (take name_len name) s)), some t)

-- `x_msg_q_create` with the list: `mem` is what `calloc` gives.
unfoldable pub create_named :
    (fuel size_t : ℕ) (given : Bool) (mem : Option ℕ) (name : List ℕ) (z_msg_size msg_count : ℕ)
    → MsgQList
    → Option (Osr × MsgQList × Option ℕ)
create_named fuel size_t given mem name z_msg_size msg_count s = elim (msg_q_find_obj fuel name s) [
  | none ↦ none
  | some p ↦ elim mem [
    | none ↦
        some ((x_msg_q_create size_t given false (not (p == 0)) z_msg_size msg_count).0, s, none)
    | some t ↦
        enter_list t name (x_msg_q_create size_t given true (not (p == 0)) z_msg_size msg_count) s
  ]
]

unfoldable pub x_msg_q_attach :
    (fuel : ℕ) (given : Bool) (name : List ℕ) → MsgQList → Option (Osr × MsgQList × Option ℕ)
x_msg_q_attach fuel given name s =
    if not given then some (Osr.inv_arg, s, none) else elim (msg_q_find_obj fuel name s) [
      | none ↦ none
      | some p ↦
          if p == 0
          then some (Osr.not_exist, s, none)
          else let q = s.queues p in
            some (Osr.ok, set_queue p (record q { refcount = (q.refcount + 1) % 2 ^ 16 }) s, some p)
    ]

-- `x_msg_q_delete`; a word from 2 ^ 15 on is negative.
unfoldable pub x_msg_q_delete : ℕ → MsgQList → Osr × MsgQList
x_msg_q_delete h s =
    let q = s.queues h in
    let left : ℕ = (q.refcount + 2 ^ 16 - 1) % 2 ^ 16 in
    let s1 = set_queue h (record q { refcount = left }) s in
    if ltb 0 left && ltb left (2 ^ 15) then (Osr.ok, s1) else (Osr.ok, msg_q_list_remove h s1)

-- `x_msg_q_get_max_msg_size`; `given` says that the pointer is not NULL.
abbrev pub x_msg_q_get_max_msg_size : (given : Bool) → MsgQ → Osr × Option ℕ
x_msg_q_get_max_msg_size given q = if given then (Osr.ok, some q.z_maxsize) else (Osr.inv_arg, none)
