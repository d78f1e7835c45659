-- ===== src/Tls/Errors.antt =====
-- The refusals of src/tls_reload.rs, one constructor for each message.
pub data TlsError : Type 0 where
  missing_tag missing_length indefinite_length invalid_length length_overflow truncated : TlsError
  unexpected_tag : TlsError
  trailing_data trailing_fields trailing_validity : TlsError
  not_utc invalid_utc_time invalid_generalized_time unsupported_time_tag missing_time_fields :
      TlsError
  invalid_fraction invalid_calendar non_digit field_overflow date_overflow timestamp_overflow :
      TlsError
  reversed_validity not_valid_yet expired : TlsError
  no_certificate open_failed parse_failed key_failed unsupported_key key_mismatch : TlsError
