-- ===== src/Text.antt =====
-- What the source uses of `std::string`, over bytes. A position is a number, and `npos` is `none`.
pub mod Laws
pub mod Decimal
use Prim.Native.Char.{code}
use Prim.Native.String.{String}
use cli_chat.Base.{
  ℕ, zero, suc, ◌+◌, Bool, true, false, ◌&&◌, ◌||◌, List, [], ◌∷◌, ◌++◌, Option, none, some, ◌==◌,
  ltb, length, take, drop, if◌then◌else◌,
}
use mathlib.Core.Option

abbrev pub Bytes : Type 0
Bytes = List ℕ

-- A literal of the source: its code points are its bytes, since the literals are ASCII.
abbrev pub codes : String → Bytes
codes String.[] = []
codes (String.◌∷◌ c s) = code c ∷ codes s

-- s == t
unfoldable pub equal : Bytes → Bytes → Bool
equal [] [] = true
equal [] (_ ∷ _) = false
equal (_ ∷ _) [] = false
equal (a ∷ s) (b ∷ t) = a == b && equal s t

-- s.rfind(p, 0) == 0, and s.starts_with(p)
unfoldable pub starts_with : Bytes → Bytes → Bool
starts_with s [] = true
starts_with [] (_ ∷ _) = false
starts_with (a ∷ s) (b ∷ p) = a == b && starts_with s p

-- s.find(c)
unfoldable pub find : Bytes → ℕ → Option ℕ
find [] c = none
find (a ∷ s) c = if a == c then some 0 else Option.map suc (find s c)

-- s.find(c, pos)
unfoldable pub find_from : Bytes → ℕ → ℕ → Option ℕ
unfolding find
find_from s c pos = Option.map (λ i. pos + i) (find (drop pos s) c)

-- s.find(p) != npos for a text p
unfoldable pub contains : Bytes → Bytes → Bool
unfolding starts_with
contains [] p = starts_with [] p
contains (a ∷ s) p = starts_with (a ∷ s) p || contains s p

-- s.substr(pos); `none` is the `std::out_of_range` that it throws when pos is past the end
unfoldable pub substr_from : Bytes → ℕ → Option Bytes
substr_from s pos = if ltb (length s) pos then none else some (drop pos s)

-- s.substr(pos, n)
unfoldable pub substr : Bytes → ℕ → ℕ → Option Bytes
substr s pos n = if ltb (length s) pos then none else some (take n (drop pos s))

-- s.back() == c, on a text that is not empty
unfoldable pub ends_with : Bytes → ℕ → Bool
ends_with [] c = false
ends_with (a ∷ []) c = a == c
ends_with (a ∷ b ∷ s) c = ends_with (b ∷ s) c

-- s.pop_back()
unfoldable pub pop_back : Bytes → Bytes
pop_back [] = []
pop_back (a ∷ []) = []
pop_back (a ∷ b ∷ s) = a ∷ pop_back (b ∷ s)

-- `while (std::getline(ss, item, c))` over a text: the pieces between the bytes `c`. There is no
-- last piece when the text is empty or ends with `c`. The second argument is the piece read so far.
unfoldable pub split_piece : ℕ → Bytes → Bytes → List Bytes
split_piece c [] [] = []
split_piece c (a ∷ cur) [] = (a ∷ cur) ∷ []
split_piece c cur (a ∷ s) = elim (a == c) [
  | true ↦ cur ∷ split_piece c [] s
  | false ↦ split_piece c (cur ++ a ∷ []) s
]

unfoldable pub split : ℕ → Bytes → List Bytes
unfolding split_piece
split c s = split_piece c [] s
