-- ===== src/Codec/Checks.antt =====
-- The tests of field values: the functions of libsmpp34/smpp34_params.c and the lists that they
-- are made from. A value is refused where the function gives an empty text.
use libsmpp.Prelude.{ℕ, ◌==◌, ltb, Bool, true, false, ◌||◌, List, [], ◌∷◌}
use libsmpp.Codec.CommandId
use libsmpp.Codec.CommandStatus

-- Which function tests a field. `value_dec` stands for valueDec_32, valueDec_16 and valueDec_08,
-- and `tlv_id` for str_tlv_id, which all give a text for every value.
pub data Check : Type 0 where
  value_dec tlv_id command_id command_status sequence_number interface_version dest_flag addr_ton
        addr_npi :
      Check

unfoldable pub one_of : List ℕ → ℕ → Bool
one_of [] v = false
one_of (x ∷ xs) v = v == x || one_of xs v

-- The lists of def_list, by their values.
unfoldable pub command_ids : List ℕ
command_ids =
    CommandId.generic_nack ∷ CommandId.bind_receiver ∷ CommandId.bind_receiver_resp
    ∷ CommandId.bind_transmitter ∷ CommandId.bind_transmitter_resp ∷ CommandId.query_sm
    ∷ CommandId.query_sm_resp ∷ CommandId.submit_sm ∷ CommandId.submit_sm_resp
    ∷ CommandId.deliver_sm ∷ CommandId.deliver_sm_resp ∷ CommandId.unbind ∷ CommandId.unbind_resp
    ∷ CommandId.replace_sm ∷ CommandId.replace_sm_resp ∷ CommandId.cancel_sm
    ∷ CommandId.cancel_sm_resp ∷ CommandId.bind_transceiver ∷ CommandId.bind_transceiver_resp
    ∷ CommandId.outbind ∷ CommandId.enquire_link ∷ CommandId.enquire_link_resp
    ∷ CommandId.submit_multi ∷ CommandId.submit_multi_resp ∷ CommandId.alert_notification
    ∷ CommandId.data_sm ∷ CommandId.data_sm_resp ∷ []

unfoldable pub command_statuses : List ℕ
command_statuses =
    CommandStatus.esme_rok ∷ CommandStatus.esme_rinvmsglen ∷ CommandStatus.esme_rinvcmdlen
    ∷ CommandStatus.esme_rinvcmdid ∷ CommandStatus.esme_rinvbndsts ∷ CommandStatus.esme_ralybnd
    ∷ CommandStatus.esme_rinvprtflg ∷ CommandStatus.esme_rinvregdlvflg ∷ CommandStatus.esme_rsyserr
    ∷ CommandStatus.esme_rinvsrcadr ∷ CommandStatus.esme_rinvdstadr ∷ CommandStatus.esme_rinvmsgid
    ∷ CommandStatus.esme_rbindfail ∷ CommandStatus.esme_rinvpaswd ∷ CommandStatus.esme_rinvsysid
    ∷ CommandStatus.esme_rcancelfail ∷ CommandStatus.esme_rreplacefail ∷ CommandStatus.esme_rmsgqful
    ∷ CommandStatus.esme_rinvsertyp ∷ CommandStatus.esme_rinvnumdests
    ∷ CommandStatus.esme_rinvdlname ∷ CommandStatus.esme_rinvdestflag
    ∷ CommandStatus.esme_rinvsubrep ∷ CommandStatus.esme_rinvesmclass ∷ CommandStatus.esme_rcntsubdl
    ∷ CommandStatus.esme_rsubmitfail ∷ CommandStatus.esme_rinvsrcton ∷ CommandStatus.esme_rinvsrcnpi
    ∷ CommandStatus.esme_rinvdstton ∷ CommandStatus.esme_rinvdstnpi ∷ CommandStatus.esme_rinvsystyp
    ∷ CommandStatus.esme_rinvrepflag ∷ CommandStatus.esme_rinvnummsgs
    ∷ CommandStatus.esme_rthrottled ∷ CommandStatus.esme_rinvsched ∷ CommandStatus.esme_rinvexpiry
    ∷ CommandStatus.esme_rinvdftmsgid ∷ CommandStatus.esme_rx_t_appn ∷ CommandStatus.esme_rx_p_appn
    ∷ CommandStatus.esme_rx_r_appn ∷ CommandStatus.esme_rqueryfail
    ∷ CommandStatus.esme_rinvoptparstream ∷ CommandStatus.esme_roptparnotallwd
    ∷ CommandStatus.esme_rinvparlen ∷ CommandStatus.esme_rmissingoptparam
    ∷ CommandStatus.esme_rinvoptparamval ∷ CommandStatus.esme_rdeliveryfailure
    ∷ CommandStatus.esme_runknownerr ∷ []

unfoldable pub addr_tons : List ℕ
addr_tons = 0 ∷ 1 ∷ 2 ∷ 3 ∷ 4 ∷ 5 ∷ 6 ∷ []

unfoldable pub addr_npis : List ℕ
addr_npis = 0 ∷ 1 ∷ 3 ∷ 4 ∷ 6 ∷ 8 ∷ 9 ∷ 10 ∷ 14 ∷ 18 ∷ []

unfoldable pub dest_flags : List ℕ
dest_flags = 1 ∷ 2 ∷ []

unfoldable pub valid : Check → ℕ → Bool
valid value_dec v = true
valid tlv_id v = true
valid command_id v = one_of command_ids v
valid command_status v = one_of command_statuses v
valid sequence_number v = ltb 0 v
valid interface_version v = v == 0x34
valid dest_flag v = one_of dest_flags v
valid addr_ton v = one_of addr_tons v
valid addr_npi v = one_of addr_npis v
