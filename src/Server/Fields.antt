-- ===== src/Server/Fields.antt =====
-- The lines that the builders of `MessageParser` write, cut into their fields.
use cli_chat.Base.{
  drop-append, ◌≡◌, refl, ◌∙◌, ap, sym, ◌+◌, ◌-◌, true, false, [], ◌∷◌, ◌++◌, none, some, arith,
  append_assoc, is_empty, length, length-append,
}
use cli_chat.Text.{Bytes, codes, starts_with, find_from}
use cli_chat.Text.Laws.{Lacks, find-none, find_from-append, substr-at, substr_from-at}
use cli_chat.Message.{colon, build_login_message, build_register_message, build_private_message}
use cli_chat.Server.Session.{login_fields, register_fields, private_fields}
use cli_chat.Server.Dispatch.{second_colon}

pub login_fields-build :
    (u pw : Bytes) → login_fields (build_login_message u pw) (6 + length u) ≡ some (u, pw)
unfolding login_fields build_login_message
login_fields-build u pw =
    let raw = codes "login:" ++ (u ++ colon ∷ pw) in
    ground (
      arith,
      substr-at {raw = raw} (codes "login:") u (colon ∷ pw) {i = 6} {n = 6 + length u - 6} refl refl
          (omega arith),
      substr_from-at {raw = raw} (codes "login:" ++ (u ++ colon ∷ [])) pw {i = 6 + length u + 1}
          (ap (◌++◌ (codes "login:")) (sym (append_assoc u (colon ∷ []) pw)))
          (omega (arith, length-append u (colon ∷ []))),
    )

pub register_fields-build :
    (u pw email : Bytes)
    → register_fields
        (codes "register:" ++ (u ++ colon ∷ (pw ++ colon ∷ email)))
        (9 + length u)
        (some (9 + length u + 1 + length pw))
      ≡ some (u, pw, email)
unfolding register_fields
register_fields-build u pw email =
    let raw = codes "register:" ++ (u ++ colon ∷ (pw ++ colon ∷ email)) in
    let front = codes "register:" ++ (u ++ colon ∷ []) in
    let e : raw ≡ front ++ (pw ++ colon ∷ email) =
      ap (◌++◌ (codes "register:")) (sym (append_assoc u (colon ∷ []) (pw ++ colon ∷ email))) in
    let n : 9 + length u + 1 ≡ length front = omega (arith, length-append u (colon ∷ [])) in
    ground (
      arith,
      substr-at {raw = raw} (codes "register:") u (colon ∷ (pw ++ colon ∷ email)) {i = 9}
          {n = 9 + length u - 9} refl refl (omega arith),
      substr-at {raw = raw} front pw (colon ∷ email) {i = 9 + length u + 1}
          {n = 9 + length u + 1 + length pw - (9 + length u) - 1} e n (omega arith),
      substr_from-at {raw = raw} (front ++ (pw ++ colon ∷ [])) email
          {i = 9 + length u + 1 + length pw + 1}
          (e
            ∙ ap (◌++◌ front) (sym (append_assoc pw (colon ∷ []) email))
            ∙ sym (append_assoc front (pw ++ colon ∷ []) email))
          (omega (arith, n, length-append front (pw ++ colon ∷ []), length-append pw (colon ∷ []))),
    )

pub register_fields-short :
    (u pw : Bytes)
    → register_fields (codes "register:" ++ (u ++ colon ∷ pw)) (9 + length u) none
      ≡ some (u, pw, [])
unfolding register_fields
register_fields-short u pw =
    let raw = codes "register:" ++ (u ++ colon ∷ pw) in
    ground (
      arith,
      substr-at {raw = raw} (codes "register:") u (colon ∷ pw) {i = 9} {n = 9 + length u - 9} refl
          refl (omega arith),
      substr_from-at {raw = raw} (codes "register:" ++ (u ++ colon ∷ [])) pw {i = 9 + length u + 1}
          (ap (◌++◌ (codes "register:")) (sym (append_assoc u (colon ∷ []) pw)))
          (omega (arith, length-append u (colon ∷ []))),
    )

pub private_fields-build :
    (r c : Bytes) → private_fields (build_private_message r c) (1 + length r) ≡ some (r, c)
unfolding private_fields build_private_message
private_fields-build r c =
    let raw = codes "@" ++ (r ++ colon ∷ c) in
    ground (
      arith,
      substr-at {raw = raw} (codes "@") r (colon ∷ c) {i = 1} {n = 1 + length r - 1} refl refl
          (omega arith),
      substr_from-at {raw = raw} (codes "@" ++ (r ++ colon ∷ [])) c {i = 1 + length r + 1}
          (ap (◌++◌ (codes "@")) (sym (append_assoc r (colon ∷ []) c)))
          (omega (arith, length-append r (colon ∷ []))),
    )

-- The second colon is looked for behind the first one.
pub second_colon-none :
    (u pw : Bytes)
    → Lacks colon pw
    → second_colon (codes "register:" ++ (u ++ colon ∷ pw)) (some (9 + length u)) ≡ none
unfolding second_colon find_from
second_colon-none u pw l =
    let front = codes "register:" ++ (u ++ colon ∷ []) in
    let e : codes "register:" ++ (u ++ colon ∷ pw) ≡ front ++ pw =
      ap (◌++◌ (codes "register:")) (sym (append_assoc u (colon ∷ []) pw)) in
    let n : 9 + length u + 1 ≡ length front = omega (arith, length-append u (colon ∷ [])) in
    rw (e, n) (rw (drop-append front pw) (rw (find-none pw colon l)))

pub second_colon-some :
    (u pw email : Bytes)
    → Lacks colon pw
    → second_colon (codes "register:" ++ (u ++ colon ∷ (pw ++ colon ∷ email))) (some (9 + length u))
      ≡ some (9 + length u + 1 + length pw)
unfolding second_colon
second_colon-some u pw email l =
    let front = codes "register:" ++ (u ++ colon ∷ []) in
    let e : codes "register:" ++ (u ++ colon ∷ (pw ++ colon ∷ email))
        ≡ front ++ (pw ++ colon ∷ email) =
      ap (◌++◌ (codes "register:")) (sym (append_assoc u (colon ∷ []) (pw ++ colon ∷ email))) in
    let n : 9 + length u + 1 ≡ length front = omega (arith, length-append u (colon ∷ [])) in
    rw (e, n) (find_from-append front pw email colon l)

pub build_register_message-full :
    (u pw email : Bytes)
    → is_empty email ≡ false
    → build_register_message u pw email ≡ codes "register:" ++ (u ++ colon ∷ (pw ++ colon ∷ email))
unfolding build_register_message
build_register_message-full u pw email ne =
    rw ne (ap (◌++◌ (codes "register:")) (append_assoc u (colon ∷ pw) (colon ∷ email)))

pub build_register_message-front :
    (u pw email : Bytes)
    → (starts_with (build_register_message u pw email) (codes "login:") ≡ false)
      × (starts_with (build_register_message u pw email) (codes "register:") ≡ true)
unfolding build_register_message starts_with
build_register_message-front u pw [] = (refl, refl)
build_register_message-front u pw (x ∷ email) = (refl, refl)
