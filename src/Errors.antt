-- ===== src/Errors.antt =====
-- The texts of the errors that pkg/record and pkg/provider/libdns build, `err.Error()`; an error
-- of a library carries its own text.
use k8s_dns_manager.Prelude.{
  ◌++◌, Text, codes, Error, external, not_found, invalid_ip, empty_txt_record, srv_target_required,
  cname_target_required, unknown_record_type, invalid_record, malformed_name, record_already_exists,
  expected_one_record, not_a_record, record_not_found, record_conversion,
}
use k8s_dns_manager.GoStrings.{decimal}

unfoldable pub error_text : Error → Text
error_text (external s) = s
error_text (not_found s) = s
error_text (invalid_ip s) = codes "invalid ip: " ++ s
error_text empty_txt_record = codes "empty TXT record"
error_text srv_target_required = codes "'target' is required for SRV Records"
error_text cname_target_required = codes "'target' is required for CNAME Records"
error_text unknown_record_type = codes "unknown record type"
error_text (invalid_record s) = codes "invalid record: '" ++ (s ++ codes "'")
error_text (malformed_name s) = codes "malformed name: " ++ s
error_text (record_already_exists s) = codes "record already exists: " ++ s
error_text (expected_one_record n) = codes "expected 1 record, got " ++ decimal n
error_text (not_a_record s) = codes "'" ++ (s ++ codes "' is not a DNSRecord or a valid dns record")
error_text (record_not_found s) = codes "'" ++ (s ++ codes "': record not found")
error_text (record_conversion e) = codes "record conversion: " ++ error_text e
