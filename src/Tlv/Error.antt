-- ===== src/Tlv/Error.antt =====
-- der-verified/src/tlv.rs: why a TLV is rejected.
use rs_verified_der.Length.{LengthError}
use rs_verified_der.Tag.{TagError}

pub data TlvError : Type 0 where
  tag : TagError → TlvError
  length : LengthError → TlvError
  truncated length_too_large trailing_data : TlvError
