-- ===== src/Base/Text.antt =====
-- The standard library's `str::replace('\0', "")` and `str::trim`, over the characters of a text.
use Prim.Native.Char.{code}
use digital_asset_rpc_infras.Base.{
  ℕ, ◌≡◌, refl, ap, Bool, true, false, ◌||◌, ◌&&◌, String, leb, ◌==◌, if◌then◌else◌, Bool-cases,
  inl, inr,
}

abbrev pub is_empty : String → Bool
is_empty String.[] = true
is_empty (String.◌∷◌ c s) = false

unfoldable pub remove_nul : String → String
remove_nul String.[] = String.[]
remove_nul (String.◌∷◌ c s) =
    let rest = remove_nul s in if code c == 0 then rest else String.◌∷◌ c rest

-- The code points with the Unicode property White_Space.
unfoldable pub is_whitespace : ℕ → Bool
is_whitespace c =
    leb 9 c && leb c 13
    || c == 32
    || c == 0x85
    || c == 0xa0
    || c == 0x1680
    || leb 0x2000 c && leb c 0x200a
    || c == 0x2028
    || c == 0x2029
    || c == 0x202f
    || c == 0x205f
    || c == 0x3000

trim_start : String → String
trim_start String.[] = String.[]
trim_start (String.◌∷◌ c s) =
    let rest = trim_start s in if is_whitespace (code c) then rest else String.◌∷◌ c s

trim_end : String → String
trim_end String.[] = String.[]
trim_end (String.◌∷◌ c s) =
    let rest = trim_end s in
    if is_empty rest && is_whitespace (code c) then String.[] else String.◌∷◌ c rest

unfoldable pub trim : String → String
unfolding trim_start trim_end is_whitespace
trim s = trim_end (trim_start s)

trim_test : trim " ab c " ≡ "ab c"
unfolding trim
trim_test = refl

-- A text without NUL is left alone by a second `replace`.
pub remove_nul_idem : (s : String) → remove_nul (remove_nul s) ≡ remove_nul s
unfolding remove_nul
remove_nul_idem String.[] = refl
remove_nul_idem (String.◌∷◌ c s) = elim (Bool-cases (code c == 0)) [
  | inl nul ↦ rw nul (remove_nul_idem s)
  | inr other ↦ rw (other, remove_nul) (rw other (ap (String.◌∷◌ c) (remove_nul_idem s)))
]
