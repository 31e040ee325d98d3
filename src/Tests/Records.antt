-- ===== src/Tests/Records.antt =====
-- Conversion, validation and the DNSRecord controller.
use k8s_dns_manager.Prelude.{◌≡◌, refl, none, [], ok, err, empty_txt_record}
use k8s_dns_manager.GoStrings.{has_suffix}
use k8s_dns_manager.Webhook.Validate.{validate, validate_a, validate_cname}
use k8s_dns_manager.Record.{from_rr, to_rr, to_rr_a}
use k8s_dns_manager.Record.RoundTrip.{to_rr-from_rr}
use k8s_dns_manager.Record.Valid.{Converts, is_typed, validate-to_rr, admitted_unconvertible}
use k8s_dns_manager.Tests.Samples.{deps, a_rr, a_record, cname, txt, two_kinds}

to_rr-from_rr_example : to_rr deps (from_rr deps a_rr) ≡ ok a_rr
to_rr-from_rr_example = to_rr-from_rr deps a_rr (refl, refl)

to_rr-a_record : to_rr deps a_record ≡ ok a_rr
unfolding to_rr to_rr_a
to_rr-a_record = refl

validate-a_record : validate deps a_record ≡ none
unfolding validate validate_a has_suffix
validate-a_record = refl

validate-to_rr_example : Converts (is_typed a_record.spec) (to_rr deps a_record)
validate-to_rr_example = validate-to_rr deps a_record refl validate-a_record

validate_cname-cname : validate_cname cname ≡ []
unfolding validate_cname has_suffix
validate_cname-cname = refl

admitted_unconvertible_example :
    (validate deps two_kinds ≡ none) × (to_rr deps two_kinds ≡ err empty_txt_record)
admitted_unconvertible_example =
    admitted_unconvertible deps two_kinds cname txt refl refl validate_cname-cname refl refl
