-- ===== src/Tls/Cases/Record.antt =====
-- The rules of `Safety` at the cases of tls_clienthello in Tls/Record.antt.
use pakeles.Base.{suc, refl, arith, ◌==◌}
use pakeles.Safety.{
  Triple, Triple-pure, Triple-reject, Triple-if, Triple-store, Triple-fetch, ◌⨾◌, ◌▸◌,
  Triple-bytes_in, Triple-run_of_in, Triple-push,
}
use pakeles.Tls.Types.{
  s_recver, s_hs, s_fixed, s_sid_len, not_a_client_hello, not_a_handshake_record,
  unsupported_record_version, reason_str, rmask,
}
use pakeles.Tls.Record.{case_s_record, case_s_recver, case_s_hs, case_s_fixed}
use pakeles.Tls.Cases.Depths.{named, depth_of, mask, names}

pub case_s_record-Triple : Triple (suc rmask) named 0 case_s_record depth_of
unfolding case_s_record reason_str
case_s_record-Triple =
    Triple-store _
    ▸ Triple-bytes_in _ _ (omega arith)
    ▸ Triple-bytes_in _ _ (omega arith)
    ▸ Triple-bytes_in _ _ (omega arith)
    ▸ Triple-bytes_in _ _ (omega arith)
    ▸ Triple-fetch _
    ⨾ λ rlen. Triple-push rlen (omega arith) ▸ Triple-fetch _ ⨾ λ key0.
        Triple-if (key0 == 22) (Triple-pure s_recver refl)
          (Triple-reject not_a_handshake_record refl)

pub case_s_recver-Triple : Triple (suc rmask) named 1 case_s_recver depth_of
unfolding case_s_recver reason_str
case_s_recver-Triple = Triple-fetch _ ⨾ λ key0.
    Triple-if (key0 == 3) (Triple-pure s_hs refl) (Triple-reject unsupported_record_version refl)

pub case_s_hs-Triple : Triple (suc rmask) named 1 case_s_hs depth_of
unfolding case_s_hs reason_str
case_s_hs-Triple =
    Triple-store _
    ▸ Triple-bytes_in _ _ (omega arith)
    ▸ Triple-bytes_in _ _ (omega arith)
    ▸ Triple-fetch _
    ⨾ λ rlen. Triple-push rlen (omega arith) ▸ Triple-fetch _ ⨾ λ key0.
        Triple-if (key0 == 1) (Triple-pure s_fixed refl) (Triple-reject not_a_client_hello refl)

pub case_s_fixed-Triple : Triple (suc rmask) named 2 case_s_fixed depth_of
unfolding case_s_fixed
case_s_fixed-Triple = Triple-store _ ▸ Triple-bytes_in _ _ (omega arith) ▸ Triple-fetch _ ⨾ λ vlen.
    Triple-run_of_in vlen _ ▸ Triple-pure s_sid_len refl
