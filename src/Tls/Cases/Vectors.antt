-- ===== src/Tls/Cases/Vectors.antt =====
-- The rules of `Safety` at the cases of tls_clienthello in Tls/Vectors.antt.
use pakeles.Base.{suc, refl, arith, ◌==◌, leb}
use pakeles.Safety.{
  Triple, Triple-pure, Triple-reject, Triple-if, Triple-store, Triple-fetch, ◌⨾◌, ◌▸◌,
  Triple-bytes_in, Triple-run_of_in,
}
use pakeles.Tls.Types.{
  s_sid, s_cs_len, s_cs_parity, s_cs, s_comp_len, s_comp, s_ext_check, empty_cipher_suites,
  empty_compressions, odd_cipher_suites_length, session_id_too_long, reason_str, rmask,
}
use pakeles.Tls.Vectors.{
  case_s_sid_len, case_s_sid, case_s_cs_len, case_s_cs_parity, case_s_cs, case_s_comp_len,
  case_s_comp,
}
use pakeles.Tls.Cases.Depths.{named, depth_of, mask, names}

pub case_s_sid_len-Triple : Triple (suc rmask) named 2 case_s_sid_len depth_of
unfolding case_s_sid_len reason_str
case_s_sid_len-Triple =
    Triple-store _ ▸ Triple-bytes_in _ _ (omega arith) ▸ Triple-fetch _ ⨾ λ key0.
    Triple-if (leb key0 32) (Triple-pure s_sid refl) (Triple-reject session_id_too_long refl)

pub case_s_sid-Triple : Triple (suc rmask) named 2 case_s_sid depth_of
unfolding case_s_sid
case_s_sid-Triple =
    Triple-store _ ▸ Triple-fetch _ ⨾ λ vlen. Triple-run_of_in vlen _ ▸ Triple-pure s_cs_len refl

pub case_s_cs_len-Triple : Triple (suc rmask) named 2 case_s_cs_len depth_of
unfolding case_s_cs_len reason_str
case_s_cs_len-Triple =
    Triple-store _ ▸ Triple-bytes_in _ _ (omega arith) ▸ Triple-store _ ▸ Triple-fetch _ ⨾ λ key0.
    Triple-if (key0 == 0) (Triple-reject empty_cipher_suites refl) (Triple-pure s_cs_parity refl)

pub case_s_cs_parity-Triple : Triple (suc rmask) named 2 case_s_cs_parity depth_of
unfolding case_s_cs_parity reason_str
case_s_cs_parity-Triple = Triple-fetch _ ⨾ λ key0.
    Triple-if (key0 == 1) (Triple-reject odd_cipher_suites_length refl) (Triple-pure s_cs refl)

pub case_s_cs-Triple : Triple (suc rmask) named 2 case_s_cs depth_of
unfolding case_s_cs
case_s_cs-Triple =
    Triple-store _ ▸ Triple-fetch _ ⨾ λ vlen. Triple-run_of_in vlen _ ▸ Triple-pure s_comp_len refl

pub case_s_comp_len-Triple : Triple (suc rmask) named 2 case_s_comp_len depth_of
unfolding case_s_comp_len reason_str
case_s_comp_len-Triple =
    Triple-store _ ▸ Triple-bytes_in _ _ (omega arith) ▸ Triple-fetch _ ⨾ λ key0.
    Triple-if (key0 == 0) (Triple-reject empty_compressions refl) (Triple-pure s_comp refl)

pub case_s_comp-Triple : Triple (suc rmask) named 2 case_s_comp depth_of
unfolding case_s_comp
case_s_comp-Triple =
    Triple-store _ ▸ Triple-fetch _ ⨾ λ vlen. Triple-run_of_in vlen _ ▸ Triple-pure s_ext_check refl
