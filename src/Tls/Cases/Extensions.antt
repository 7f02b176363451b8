-- ===== src/Tls/Cases/Extensions.antt =====
-- The rules of `Safety` at the cases of tls_clienthello in Tls/Extensions.antt.
use pakeles.Base.{suc, refl, arith, ◌==◌, ◌&&◌, shr64}
use pakeles.Safety.{
  Triple, Triple-pure, Triple-accept, Triple-reject, Triple-if, Triple-store, Triple-fetch, ◌⨾◌,
  ◌▸◌, Triple-bytes_in, Triple-run_of_in, Triple-push, Triple-pop, Triple-remaining,
}
use pakeles.Tls.Types.{
  s_ext_len, s_tlv, s_ext, s_skip, s_sni, s_done, s_done_noext, duplicate_sni,
  partial_extension_header, partial_extensions_length, reason_str, rmask,
}
use pakeles.Tls.Extensions.{
  case_s_ext_check, case_s_ext_len, case_s_tlv, case_s_ext, case_s_skip, case_s_done,
  case_s_done_noext,
}
use pakeles.Tls.Cases.Depths.{named, depth_of, mask, names}

pub case_s_ext_check-Triple : Triple (suc rmask) named 2 case_s_ext_check depth_of
unfolding case_s_ext_check reason_str
case_s_ext_check-Triple = Triple-remaining ⨾ λ r.
    Triple-if ((shr64 r 3) == 0) (Triple-pure s_done_noext refl) (
      Triple-if ((shr64 r 3) == 1) (Triple-reject partial_extensions_length refl)
        (Triple-pure s_ext_len refl))

pub case_s_ext_len-Triple : Triple (suc rmask) named 2 case_s_ext_len depth_of
unfolding case_s_ext_len
case_s_ext_len-Triple =
    Triple-store _ ▸ Triple-bytes_in _ _ (omega arith) ▸ Triple-fetch _ ⨾ λ rlen.
    Triple-push rlen (omega arith) ▸ Triple-pure s_tlv refl

pub case_s_tlv-Triple : Triple (suc rmask) named 3 case_s_tlv depth_of
unfolding case_s_tlv reason_str
case_s_tlv-Triple = Triple-remaining ⨾ λ r. Triple-if ((shr64 r 3) == 0) (Triple-pure s_done refl) (
    Triple-if ((shr64 r 3) == 1) (Triple-reject partial_extension_header refl) (
      Triple-if ((shr64 r 3) == 2) (Triple-reject partial_extension_header refl) (
        Triple-if ((shr64 r 3) == 3) (Triple-reject partial_extension_header refl)
          (Triple-pure s_ext refl))))

pub case_s_ext-Triple : Triple (suc rmask) named 3 case_s_ext depth_of
unfolding case_s_ext reason_str
case_s_ext-Triple =
    Triple-store _
    ▸ Triple-bytes_in _ _ (omega arith)
    ▸ Triple-bytes_in _ _ (omega arith)
    ▸ Triple-fetch _
    ⨾ λ key0. Triple-fetch _ ⨾ λ key1. Triple-if (key0 == 0 && key1 == 0) (Triple-pure s_sni refl) (
        Triple-if (key0 == 0 && key1 == 1) (Triple-reject duplicate_sni refl)
          (Triple-pure s_skip refl))

pub case_s_skip-Triple : Triple (suc rmask) named 3 case_s_skip depth_of
unfolding case_s_skip
case_s_skip-Triple =
    Triple-store _ ▸ Triple-fetch _ ⨾ λ vlen. Triple-run_of_in vlen _ ▸ Triple-pure s_tlv refl

pub case_s_done-Triple : Triple (suc rmask) named 3 case_s_done depth_of
unfolding case_s_done
case_s_done-Triple = Triple-pop ▸ Triple-pop ▸ Triple-pop ▸ Triple-accept

pub case_s_done_noext-Triple : Triple (suc rmask) named 2 case_s_done_noext depth_of
unfolding case_s_done_noext
case_s_done_noext-Triple = Triple-pop ▸ Triple-pop ▸ Triple-accept
