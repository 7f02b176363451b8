-- ===== src/Tls/Cases/ServerName.antt =====
-- The rules of `Safety` at the cases of tls_clienthello in Tls/ServerName.antt.
use pakeles.Base.{suc, refl, arith, ◌==◌}
use pakeles.Safety.{
  Triple, Triple-pure, Triple-reject, Triple-if, Triple-store, Triple-fetch, ◌⨾◌, ◌▸◌,
  Triple-bytes_in, Triple-run_of_in, Triple-push, Triple-pop,
}
use pakeles.Tls.Types.{
  s_tlv, s_sni_list, s_sni_entry, s_host, unsupported_sni_name_type, reason_str, rmask,
}
use pakeles.Tls.ServerName.{case_s_sni, case_s_sni_list, case_s_sni_entry, case_s_host}
use pakeles.Tls.Cases.Depths.{named, depth_of, mask, names}

pub case_s_sni-Triple : Triple (suc rmask) named 3 case_s_sni depth_of
unfolding case_s_sni
case_s_sni-Triple = Triple-store _ ▸ Triple-fetch _ ⨾ λ rlen.
    Triple-push rlen (omega arith) ▸ Triple-pure s_sni_list refl

pub case_s_sni_list-Triple : Triple (suc rmask) named 4 case_s_sni_list depth_of
unfolding case_s_sni_list
case_s_sni_list-Triple =
    Triple-store _ ▸ Triple-bytes_in _ _ (omega arith) ▸ Triple-fetch _ ⨾ λ rlen.
    Triple-push rlen (omega arith) ▸ Triple-pure s_sni_entry refl

pub case_s_sni_entry-Triple : Triple (suc rmask) named 5 case_s_sni_entry depth_of
unfolding case_s_sni_entry reason_str
case_s_sni_entry-Triple =
    Triple-store _
    ▸ Triple-bytes_in _ _ (omega arith)
    ▸ Triple-bytes_in _ _ (omega arith)
    ▸ Triple-fetch _
    ⨾ λ key0.
        Triple-if (key0 == 0) (Triple-pure s_host refl)
          (Triple-reject unsupported_sni_name_type refl)

pub case_s_host-Triple : Triple (suc rmask) named 5 case_s_host depth_of
unfolding case_s_host
case_s_host-Triple = Triple-store _ ▸ Triple-fetch _ ⨾ λ vlen.
    Triple-run_of_in vlen _ ▸ Triple-pop ▸ Triple-pop ▸ Triple-pure s_tlv refl
