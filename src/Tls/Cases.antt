-- ===== src/Tls/Cases.antt =====
-- The rules of `Safety` at the cases of tls_clienthello.
mod Depths
mod Record
mod Vectors
mod Extensions
mod ServerName
pub use Depths.{named, depth_of}
use text.Mathlib.Text.{◌==◌ as str_eq}
use pakeles.Base.{ℕ, suc, refl, Bool, not, arith, ◌==◌, ◌&&◌, leb, shr64, mask_7}
use pakeles.Safety.{
  Triple, Triple-pure, Triple-accept, Triple-reject, Triple-if, Triple-store, Triple-fetch, ◌⨾◌,
  ◌▸◌, Triple-bytes_in, Triple-run_of_in, Triple-push, Triple-pop, Triple-remaining, IsMask,
  NamesBuiltIn,
}
use pakeles.Tls.Types.{
  State, s_record, s_recver, s_hs, s_fixed, s_sid_len, s_sid, s_cs_len, s_cs_parity, s_cs,
  s_comp_len, s_comp, s_ext_check, s_ext_len, s_tlv, s_ext, s_skip, s_sni, s_sni_list, s_sni_entry,
  s_host, s_done, s_done_noext, duplicate_sni, empty_cipher_suites, empty_compressions,
  not_a_client_hello, not_a_handshake_record, odd_cipher_suites_length, partial_extension_header,
  partial_extensions_length, session_id_too_long, unsupported_record_version,
  unsupported_sni_name_type, reason_str, rmask,
}
use pakeles.Tls.Record.{case_s_record, case_s_recver, case_s_hs, case_s_fixed}
use pakeles.Tls.Vectors.{
  case_s_sid_len, case_s_sid, case_s_cs_len, case_s_cs_parity, case_s_cs, case_s_comp_len,
  case_s_comp,
}
use pakeles.Tls.Extensions.{
  case_s_ext_check, case_s_ext_len, case_s_tlv, case_s_ext, case_s_skip, case_s_done,
  case_s_done_noext,
}
use pakeles.Tls.ServerName.{case_s_sni, case_s_sni_list, case_s_sni_entry, case_s_host}
use pakeles.Tls.Parse.{step}
use Record.{case_s_record-Triple, case_s_recver-Triple, case_s_hs-Triple, case_s_fixed-Triple}
use Vectors.{
  case_s_sid_len-Triple, case_s_sid-Triple, case_s_cs_len-Triple, case_s_cs_parity-Triple,
  case_s_cs-Triple, case_s_comp_len-Triple, case_s_comp-Triple,
}
use Extensions.{
  case_s_ext_check-Triple, case_s_ext_len-Triple, case_s_tlv-Triple, case_s_ext-Triple,
  case_s_skip-Triple, case_s_done-Triple, case_s_done_noext-Triple,
}
use ServerName.{
  case_s_sni-Triple, case_s_sni_list-Triple, case_s_sni_entry-Triple, case_s_host-Triple,
}

-- Every state keeps the invariant.
pub step-Triple : (s : State) → Triple (suc rmask) named (depth_of s) (step s) depth_of
unfolding step
step-Triple s_record = case_s_record-Triple
step-Triple s_recver = case_s_recver-Triple
step-Triple s_hs = case_s_hs-Triple
step-Triple s_fixed = case_s_fixed-Triple
step-Triple s_sid_len = case_s_sid_len-Triple
step-Triple s_sid = case_s_sid-Triple
step-Triple s_cs_len = case_s_cs_len-Triple
step-Triple s_cs_parity = case_s_cs_parity-Triple
step-Triple s_cs = case_s_cs-Triple
step-Triple s_comp_len = case_s_comp_len-Triple
step-Triple s_comp = case_s_comp-Triple
step-Triple s_ext_check = case_s_ext_check-Triple
step-Triple s_ext_len = case_s_ext_len-Triple
step-Triple s_tlv = case_s_tlv-Triple
step-Triple s_ext = case_s_ext-Triple
step-Triple s_skip = case_s_skip-Triple
step-Triple s_sni = case_s_sni-Triple
step-Triple s_sni_list = case_s_sni_list-Triple
step-Triple s_sni_entry = case_s_sni_entry-Triple
step-Triple s_host = case_s_host-Triple
step-Triple s_done = case_s_done-Triple
step-Triple s_done_noext = case_s_done_noext-Triple
