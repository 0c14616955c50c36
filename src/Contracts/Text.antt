-- ===== src/Contracts/Text.antt =====
-- `String.prototype.trim` and `===` on the code points of a text. All of JavaScript's white space
-- is one code unit.
use Prim.Native.Char.{code}
use kbo_workbench.Prelude.{
  Bool, List, String, [], arith, false, if◌then◌else◌, leb, refl, reverse, true, ℕ, ◌&&◌, ◌==◌,
  ◌||◌, ◌∷◌, ◌≡◌,
}

abbrev pub codes : String → List ℕ
codes String.[] = []
codes (String.◌∷◌ c s) = code c ∷ codes s

-- White space and line ends.
is_blank : ℕ → Bool
is_blank c =
    leb 0x9 c && leb c 0xd
    || c == 0x20
    || c == 0xa0
    || c == 0x1680
    || leb 0x2000 c && leb c 0x200a
    || c == 0x2028
    || c == 0x2029
    || c == 0x202f
    || c == 0x205f
    || c == 0x3000
    || c == 0xfeff

drop_blank : List ℕ → List ℕ
drop_blank [] = []
drop_blank (c ∷ cs) = if is_blank c then drop_blank cs else c ∷ cs

unfoldable pub trim : List ℕ → List ℕ
unfolding drop_blank is_blank
trim cs = reverse (drop_blank (reverse (drop_blank cs)))

abbrev pub same_codes : List ℕ → List ℕ → Bool
same_codes [] [] = true
same_codes (c ∷ cs) (d ∷ ds) = c == d && same_codes cs ds
same_codes _ _ = false

pub same_codes-eq : (cs ds : List ℕ) → same_codes cs ds ≡ true → cs ≡ ds
same_codes-eq [] [] h = refl
same_codes-eq [] (d ∷ ds) h = ground arith
same_codes-eq (c ∷ cs) [] h = ground arith
same_codes-eq (c ∷ cs) (d ∷ ds) h = ground (arith, same_codes-eq cs ds)

pub same_codes_refl : (cs : List ℕ) → same_codes cs cs ≡ true
same_codes_refl [] = refl
same_codes_refl (c ∷ cs) = ground (arith, same_codes_refl cs)
