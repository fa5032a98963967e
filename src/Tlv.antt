-- ===== src/Tlv.antt =====
-- der-verified/src/tlv.rs: a tag, a length and that many octets. A `usize` has 64 bits.
pub mod Error
pub mod Octets
pub mod Decode
pub mod Encode
pub mod Field
pub mod Reader
pub mod Typed
use rs_verified_der.Base.{ℕ, ◌+◌, ◌-◌, ◌%◌, ◌^◌, List, length, ltb, leb, ◌!=◌, if◌then◌else◌}
use rs_verified_der.Base.Result.{
  Result, ok, err, ◌>>=◌, map_err, slice_from, slice, copy_from_slice,
}
use rs_verified_der.Length.{decode_length, encode_length}
use Error.{TlvError}
use rs_verified_der.Tag.{Tag, decode_tag, encode_tag, u32_max}

pub record Tlv : Type 0 where
  pub tag : Tag
  pub value : List ℕ

abbrev pub usize_max : ℕ
usize_max = 0xffff_ffff_ffff_ffff

-- `usize::try_from(len)`
abbrev pub usize_try_from : ℕ → Result TlvError ℕ
usize_try_from len = if leb len usize_max then ok len else err TlvError.length_too_large

-- `a.checked_add(b)`
abbrev pub checked_add : ℕ → ℕ → Result TlvError ℕ
checked_add a b = if leb (a + b) usize_max then ok (a + b) else err TlvError.length_too_large

unfoldable pub decode_tlv : List ℕ → Result TlvError (Tlv × ℕ)
decode_tlv input = do
  (t, t_used) ← map_err TlvError.tag (decode_tag input)
  after ← slice_from input t_used
  (len_u32, l_used) ← map_err TlvError.length (decode_length after)
  let header = t_used + l_used
  len ← usize_try_from len_u32
  end ← checked_add header len
  let value = slice input header end
  if ltb (length input) end
      then err TlvError.truncated
      else (value >>= λ v. ok (record { tag = t; value = v }, end))

unfoldable pub decode_tlv_strict : List ℕ → Result TlvError Tlv
decode_tlv_strict input = do
  (tlv, used) ← decode_tlv input
  if used != length input then err TlvError.trailing_data else ok tlv

-- `None` is `err tt`; a success is the count of octets with the new contents of `out`.
unfoldable pub encode_tlv_into : Tag → List ℕ → List ℕ → Result (Unit {0}) (ℕ × List ℕ)
encode_tlv_into t value out =
    let write = do
      (tbuf, t_used) ← encode_tag t
      (lbuf, l_used) ← encode_length (length value % 2 ^ 32)
      let total = t_used + l_used + length value
      let fill = do
        t_octets ← slice tbuf 0 t_used
        out₁ ← copy_from_slice out 0 t_used t_octets
        l_octets ← slice lbuf 0 l_used
        out₂ ← copy_from_slice out₁ t_used (t_used + l_used) l_octets
        out₃ ← copy_from_slice out₂ (t_used + l_used) total value
        ok (total, out₃)
      if ltb (length out) total then err tt else fill
    in if ltb u32_max (length value) then err tt else write
