-- ===== src/Protocol/UserList.antt =====
-- The user list from `addSession`, `removeSession` and `processMessage` of the server to
-- `parseUserList` and the client's `processMessage`.
use cli_chat.Base.{
  Option, ◌≡◌, refl, ◌∙◌, ap, sym, ℕ, true, List, [], ◌∷◌, ◌++◌, some, arith, is_empty,
  if◌then◌else◌, append_assoc,
}
use cli_chat.Text.{Bytes, codes, starts_with, split, ends_with, pop_back}
use cli_chat.Text.Laws.{substr_from-at}
use cli_chat.Message.{keep_users, parse_user_list}
use cli_chat.Message.UserList.{
  IsListable, joined, split-joined, keep_users-IsListable, is_empty-joined,
}
use cli_chat.Server.ChatServer.{join_users, user_list}

ends_with-append : (s : Bytes) (c : ℕ) → ends_with (s ++ c ∷ []) c ≡ true
unfolding ends_with
ends_with-append [] c = ground arith
ends_with-append (a ∷ []) c = ground arith
ends_with-append (a ∷ b ∷ s) c = ends_with-append (b ∷ s) c

pop_back-append : (s : Bytes) (c : ℕ) → pop_back (s ++ c ∷ []) ≡ s
unfolding pop_back
pop_back-append [] c = refl
pop_back-append (a ∷ []) c = refl
pop_back-append (a ∷ b ∷ s) c = ap (λ (t : Bytes). a ∷ t) (pop_back-append (b ∷ s) c)

join_users-joined :
    (u : Bytes) (us : List Bytes) → join_users (u ∷ us) ≡ joined (u ∷ us) ++ b',' ∷ []
unfolding join_users
join_users-joined u [] = refl
join_users-joined u (v ∷ us) =
    ap (λ (t : Bytes). u ++ b',' ∷ t) (join_users-joined v us)
    ∙ sym (append_assoc u (b',' ∷ joined (v ∷ us)) (b',' ∷ []))

nobody_listed : user_list [] ≡ codes "users:"
unfolding user_list join_users ends_with
nobody_listed = refl

-- The line of the server: the joined names behind `users:`.
pub user_list-joined : (us : List Bytes) → user_list us ≡ codes "users:" ++ joined us
unfolding user_list join_users
user_list-joined [] = nobody_listed
user_list-joined (u ∷ us) =
    let raw : codes "users:" ++ join_users (u ∷ us)
        ≡ (codes "users:" ++ joined (u ∷ us)) ++ b',' ∷ [] =
      ap (◌++◌ (codes "users:")) (join_users-joined u us) in
    rw raw (
      rw (ends_with-append (codes "users:" ++ joined (u ∷ us)) b',')
        (pop_back-append (codes "users:" ++ joined (u ∷ us)) b','))

-- What the server lists, `parseUserList` reads back, if no name is empty or holds a comma.
pub parse_user_list-user_list :
    (us : List Bytes) → IsListable us → parse_user_list (user_list us) ≡ some us
unfolding parse_user_list starts_with
parse_user_list-user_list us h = rw (user_list-joined us) (
    rw
      (substr_from-at {raw = codes "users:" ++ joined us} (codes "users:") (joined us) {i = 6} refl
        refl)
      (listed us h))
  where
    listed :
        (vs : List Bytes)
        → IsListable vs
        → ◌≡◌ {A = Option (List Bytes)}
            (some (if is_empty (joined vs) then [] else keep_users (split b',' (joined vs))))
            (some vs)
    listed [] g = refl
    listed (v ∷ vs) g =
        rw (is_empty-joined v vs g)
          (rw (split-joined (v ∷ vs) g) (rw (keep_users-IsListable (v ∷ vs) g)))
