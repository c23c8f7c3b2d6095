-- ===== src/Auth/Email.antt =====
-- The expression for e-mail addresses, read as its language.
use cli_chat.Base.{
  suc, ◌≡◌, refl, ◌∙◌, ap, sym, ◌↔◌, ◌⊎◌, inl, inr, ℕ, ◌≤◌, Bool, true, false, not, ◌&&◌, ◌||◌, [],
  ◌∷◌, ◌++◌, Option-cases, is_empty, all, length, arith, drop, take-append, leb, ◌==◌, ◌+◌, ==_iff,
}
use cli_chat.Text.{Bytes, find}
use cli_chat.Text.Laws.{Lacks, find-append, find-some}
use cli_chat.Auth.{
  is_letter, is_local_char, is_domain_char, match_tld, match_domain, validate_email,
}

-- x.y with an x of the class of domains and at least two letters in y
pub record IsDomain (d : Bytes) : Type 0 where
  pub name : Bytes
  pub tld : Bytes
  pub shape : d ≡ name ++ b'.' ∷ tld
  pub named : is_empty name ≡ false
  pub name_chars : all is_domain_char name ≡ true
  pub tld_size : 2 ≤ length tld
  pub tld_letters : all is_letter tld ≡ true

-- The same, where x may be empty if the repetition has read a character before.
record IsDomainAfter (some_read : Bool) (d : Bytes) : Type 0 where
  name : Bytes
  tld : Bytes
  shape : d ≡ name ++ b'.' ∷ tld
  named : (not some_read && is_empty name) ≡ false
  name_chars : all is_domain_char name ≡ true
  tld_size : 2 ≤ length tld
  tld_letters : all is_letter tld ≡ true

match_domain_complete :
    (b : Bool) (name tld : Bytes)
    → (not b && is_empty name) ≡ false
    → all is_domain_char name ≡ true
    → match_tld tld ≡ true
    → match_domain b (name ++ b'.' ∷ tld) ≡ true
unfolding match_domain
match_domain_complete true [] tld h c t = ground (arith, t)
match_domain_complete false [] tld h c t = cc
match_domain_complete b (x ∷ name) tld h c t =
    ground (arith, match_domain_complete true name tld refl (ground arith) t)

or-cases : (x y : Bool) → (x || y) ≡ true → (x ≡ true) ⊎ (y ≡ true)
or-cases true y h = inl refl
or-cases false y h = inr h

and-cases : (x y : Bool) → (x && y) ≡ true → (x ≡ true) × (y ≡ true)
and-cases true y h = (refl, h)
and-cases false y h = cc

match_domain_sound : (b : Bool) (d : Bytes) → match_domain b d ≡ true → IsDomainAfter b d
unfolding match_domain match_tld
match_domain_sound b [] h = cc
match_domain_sound b (c ∷ s) h =
    elim (or-cases (b && (c == b'.' && match_tld s)) (is_domain_char c && match_domain true s) h) [
      | inl e ↦
          let (read, f) = and-cases b _ e in
          let (dot, g) = and-cases (c == b'.') (match_tld s) f in
          let (size, letters) = and-cases (leb 2 (length s)) (all is_letter s) g in
          record {
            name = [];
            tld = s;
            shape = ap (λ x. x ∷ s) ((==_iff c b'.').0 dot);
            named = rw read refl;
            name_chars = refl;
            tld_size = ground arith;
            tld_letters = letters;
          }
      | inr e ↦
          let (char, f) = and-cases (is_domain_char c) _ e in
          let r = match_domain_sound true s f in
          record {
            name = c ∷ r.name;
            tld = r.tld;
            shape = ap (λ (u : Bytes). c ∷ u) r.shape;
            named = ground arith;
            name_chars = rw char r.name_chars;
            tld_size = r.tld_size;
            tld_letters = r.tld_letters;
          }
    ]

-- l@d, with a part in front of the sign that is not empty.
pub record IsAddress (email : Bytes) : Type 0 where
  pub local : Bytes
  pub domain : Bytes
  pub shape : email ≡ local ++ b'@' ∷ domain
  pub named : is_empty local ≡ false
  pub local_chars : all is_local_char local ≡ true
  pub is_domain : IsDomain domain

local-Lacks : (l : Bytes) → all is_local_char l ≡ true → Lacks b'@' l
local-Lacks [] h = refl
local-Lacks (a ∷ l) h = ground (arith, local-Lacks l)

drop-append_suc : (l : Bytes) (c : ℕ) (d : Bytes) → drop (length l + 1) (l ++ c ∷ d) ≡ d
drop-append_suc [] c d = refl
drop-append_suc (a ∷ l) c d =
    let step : suc (length l) + 1 ≡ suc (length l + 1) = omega arith in
    ap (λ n. drop n (a ∷ (l ++ c ∷ d))) step ∙ drop-append_suc l c d

match_tld-true : (s : Bytes) → 2 ≤ length s → all is_letter s ≡ true → match_tld s ≡ true
unfolding match_tld
match_tld-true s size letters = ground arith

is_empty-at : (l : Bytes) (c : ℕ) (d : Bytes) → is_empty (l ++ c ∷ d) ≡ false
is_empty-at [] c d = refl
is_empty-at (x ∷ l) c d = refl

validate_email-at :
    (l d : Bytes)
    → Lacks b'@' l
    → validate_email (l ++ b'@' ∷ d)
      ≡ (not (is_empty l) && (all is_local_char l && match_domain false d))
unfolding validate_email
validate_email-at l d lacks =
    simp
      (
        is_empty-at l b'@' d,
        find-append l d b'@' lacks,
        take-append l (b'@' ∷ d),
        drop-append_suc l b'@' d,
      )
      refl

address-accepted : (email : Bytes) → IsAddress email → validate_email email ≡ true
address-accepted email a =
    let d = a.is_domain in
    let letters = match_tld-true d.tld d.tld_size d.tld_letters in
    let domain : match_domain false a.domain ≡ true =
      rw d.shape (match_domain_complete false d.name d.tld d.named d.name_chars letters) in
    ap validate_email a.shape
    ∙ validate_email-at a.local a.domain (local-Lacks a.local a.local_chars)
    ∙ rw (a.named, a.local_chars, domain) refl

false-true : false ≡ true → ⊥
false-true h = cc

not-true : (b : Bool) → not b ≡ true → b ≡ false
not-true false h = refl
not-true true h = cc

IsAddress-found : (c : ℕ) (s : Bytes) → validate_email (c ∷ s) ≡ true → IsAddress (c ∷ s)
unfolding validate_email
IsAddress-found c s h = elim (Option-cases (find (c ∷ s) b'@')) [
  | inl e ↦ absurd (false-true (rw e at h))
  | inr (i, e) ↦
      let (l, d, shape, lacks, pos) = find-some (c ∷ s) b'@' {i = i} e in
      let tests = sym (validate_email-at l d lacks) ∙ ap validate_email (sym shape) ∙ h in
      let (filled, more) = and-cases (not (is_empty l)) _ tests in
      let (chars, domain) = and-cases (all is_local_char l) _ more in
      let r = match_domain_sound false d domain in
      record {
        local = l;
        domain = d;
        shape = shape;
        named = not-true (is_empty l) filled;
        local_chars = chars;
        is_domain = record {
          name = r.name;
          tld = r.tld;
          shape = r.shape;
          named = r.named;
          name_chars = r.name_chars;
          tld_size = r.tld_size;
          tld_letters = r.tld_letters;
        };
      }
]

-- An e-mail address is accepted exactly when it is empty, or consists of a part, a `@`, and a second
-- part with an ending: the first is not empty and of letters, digits and `._%+-`, the second is not empty
-- and of letters, digits, `.` and `-`, and is followed by a `.` and at least two letters.
pub validate_email_iff :
    (email : Bytes) → (validate_email email ≡ true) ↔ ((email ≡ []) ⊎ IsAddress email)
unfolding validate_email
validate_email_iff [] = (λ h. inl refl, λ h. refl)
validate_email_iff (c ∷ s) = (λ h. inr (IsAddress-found c s h), back)
  where
    back : (c ∷ s ≡ []) ⊎ IsAddress (c ∷ s) → validate_email (c ∷ s) ≡ true
    back (inl e) = cc
    back (inr a) = address-accepted (c ∷ s) a
