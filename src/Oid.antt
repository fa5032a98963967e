-- ===== src/Oid.antt =====
-- der-verified/src/oid.rs: OBJECT IDENTIFIER content, a sequence of subidentifiers in base 128.
pub mod Arcs
use rs_verified_der.Base.{ℕ, Bool, true, not, ◌&&◌, List, [], ◌∷◌, bit_and, ◌==◌, if◌then◌else◌}
use rs_verified_der.Base.Result.{Result, ok, err, ◌>>=◌}

abbrev pub tag : ℕ
tag = 6

pub data OidError : Type 0 where
  empty non_minimal_subid truncated : OidError

-- The loop, with the octets that are left; it gives the last `at_subid_start`.
unfoldable pub scan : Bool → List ℕ → Result OidError Bool
scan at_subid_start [] = ok at_subid_start
scan at_subid_start (b ∷ rest) =
    let more = scan (bit_and b 0x80 == 0) rest in
    if at_subid_start && b == 0x80 then err non_minimal_subid else more

unfoldable pub validate_oid : List ℕ → Result OidError (Unit {0})
validate_oid [] = err empty
validate_oid (b ∷ rest) = do
  at_subid_start ← scan true (b ∷ rest)
  if not at_subid_start then err truncated else ok tt
