-- ===== src/Message/UserList.antt =====
-- The user list as the server writes it and the clients read it.
use cli_chat.Base.{
  ◌≡◌, refl, ◌∙◌, ap, false, List, [], ◌∷◌, ◌++◌, arith, is_empty, append-nil, append_assoc,
}
use cli_chat.Text.{Bytes, split, split_piece}
use cli_chat.Text.Laws.{Lacks}
use cli_chat.Message.{keep_users}

-- Names that are not empty and hold no comma.
abbrev pub IsListable : List Bytes → Type 0
IsListable [] = Unit {0}
IsListable (u ∷ us) = (is_empty u ≡ false) × Lacks b',' u × IsListable us

-- The names with commas between them.
abbrev pub joined : List Bytes → Bytes
joined [] = []
joined (u ∷ []) = u
joined (u ∷ v ∷ us) = u ++ b',' ∷ joined (v ∷ us)

split_piece-comma :
    (cur u rest : Bytes)
    → Lacks b',' u
    → split_piece b',' cur (u ++ b',' ∷ rest) ≡ (cur ++ u) ∷ split_piece b',' [] rest
unfolding split_piece
split_piece-comma cur [] rest l = rw append-nil
split_piece-comma cur (x ∷ u) rest l =
    let tail = split_piece-comma (cur ++ x ∷ []) u rest (ground arith) in
    ground (arith, tail, append_assoc cur (x ∷ []) u)

split_piece-last :
    (cur u : Bytes)
    → Lacks b',' u
    → is_empty (cur ++ u) ≡ false
    → split_piece b',' cur u ≡ (cur ++ u) ∷ []
unfolding split_piece
split_piece-last [] [] l h = cc
split_piece-last (y ∷ cur) [] l h = rw append-nil
split_piece-last cur (x ∷ u) l h =
    let tail = split_piece-last (cur ++ x ∷ []) u (ground arith) (not_empty cur) in
    ground (arith, tail, append_assoc cur (x ∷ []) u)
  where
    not_empty : (c : Bytes) → is_empty ((c ++ x ∷ []) ++ u) ≡ false
    not_empty [] = refl
    not_empty (z ∷ c) = refl

-- Splitting the joined names gives the names.
pub split-joined : (us : List Bytes) → IsListable us → split b',' (joined us) ≡ us
unfolding split split_piece
split-joined [] h = refl
split-joined (u ∷ []) (ne, l, h) = split_piece-last [] u l ne
split-joined (u ∷ v ∷ us) (ne, l, h) =
    split_piece-comma [] u (joined (v ∷ us)) l
    ∙ ap (λ (r : List Bytes). u ∷ r) (split-joined (v ∷ us) h)

pub keep_users-IsListable : (us : List Bytes) → IsListable us → keep_users us ≡ us
unfolding keep_users
keep_users-IsListable [] h = refl
keep_users-IsListable (u ∷ us) (ne, l, h) = ground (arith, keep_users-IsListable us h)

pub is_empty-joined :
    (u : Bytes) (us : List Bytes) → IsListable (u ∷ us) → is_empty (joined (u ∷ us)) ≡ false
is_empty-joined u [] (ne, l, h) = ne
is_empty-joined (x ∷ u) (v ∷ us) (ne, l, h) = refl
is_empty-joined [] (v ∷ us) (ne, l, h) = cc
