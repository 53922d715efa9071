-- ===== src/Codec/CommandStatus.antt =====
-- The command statuses of libsmpp34/smpp34.h.
use libsmpp.Prelude.{ℕ}

abbrev pub esme_rok : ℕ
esme_rok = 0x00000000

abbrev pub esme_rinvmsglen : ℕ
esme_rinvmsglen = 0x00000001

abbrev pub esme_rinvcmdlen : ℕ
esme_rinvcmdlen = 0x00000002

abbrev pub esme_rinvcmdid : ℕ
esme_rinvcmdid = 0x00000003

abbrev pub esme_rinvbndsts : ℕ
esme_rinvbndsts = 0x00000004

abbrev pub esme_ralybnd : ℕ
esme_ralybnd = 0x00000005

abbrev pub esme_rinvprtflg : ℕ
esme_rinvprtflg = 0x00000006

abbrev pub esme_rinvregdlvflg : ℕ
esme_rinvregdlvflg = 0x00000007

abbrev pub esme_rsyserr : ℕ
esme_rsyserr = 0x00000008

abbrev pub esme_rinvsrcadr : ℕ
esme_rinvsrcadr = 0x0000000A

abbrev pub esme_rinvdstadr : ℕ
esme_rinvdstadr = 0x0000000B

abbrev pub esme_rinvmsgid : ℕ
esme_rinvmsgid = 0x0000000C

abbrev pub esme_rbindfail : ℕ
esme_rbindfail = 0x0000000D

abbrev pub esme_rinvpaswd : ℕ
esme_rinvpaswd = 0x0000000E

abbrev pub esme_rinvsysid : ℕ
esme_rinvsysid = 0x0000000F

abbrev pub esme_rcancelfail : ℕ
esme_rcancelfail = 0x00000011

abbrev pub esme_rreplacefail : ℕ
esme_rreplacefail = 0x00000013

abbrev pub esme_rmsgqful : ℕ
esme_rmsgqful = 0x00000014

abbrev pub esme_rinvsertyp : ℕ
esme_rinvsertyp = 0x00000015

abbrev pub esme_rinvnumdests : ℕ
esme_rinvnumdests = 0x00000033

abbrev pub esme_rinvdlname : ℕ
esme_rinvdlname = 0x00000034

abbrev pub esme_rinvdestflag : ℕ
esme_rinvdestflag = 0x00000040

abbrev pub esme_rinvsubrep : ℕ
esme_rinvsubrep = 0x00000042

abbrev pub esme_rinvesmclass : ℕ
esme_rinvesmclass = 0x00000043

abbrev pub esme_rcntsubdl : ℕ
esme_rcntsubdl = 0x00000044

abbrev pub esme_rsubmitfail : ℕ
esme_rsubmitfail = 0x00000045

abbrev pub esme_rinvsrcton : ℕ
esme_rinvsrcton = 0x00000048

abbrev pub esme_rinvsrcnpi : ℕ
esme_rinvsrcnpi = 0x00000049

abbrev pub esme_rinvdstton : ℕ
esme_rinvdstton = 0x00000050

abbrev pub esme_rinvdstnpi : ℕ
esme_rinvdstnpi = 0x00000051

abbrev pub esme_rinvsystyp : ℕ
esme_rinvsystyp = 0x00000053

abbrev pub esme_rinvrepflag : ℕ
esme_rinvrepflag = 0x00000054

abbrev pub esme_rinvnummsgs : ℕ
esme_rinvnummsgs = 0x00000055

abbrev pub esme_rthrottled : ℕ
esme_rthrottled = 0x00000058

abbrev pub esme_rinvsched : ℕ
esme_rinvsched = 0x00000061

abbrev pub esme_rinvexpiry : ℕ
esme_rinvexpiry = 0x00000062

abbrev pub esme_rinvdftmsgid : ℕ
esme_rinvdftmsgid = 0x00000063

abbrev pub esme_rx_t_appn : ℕ
esme_rx_t_appn = 0x00000064

abbrev pub esme_rx_p_appn : ℕ
esme_rx_p_appn = 0x00000065

abbrev pub esme_rx_r_appn : ℕ
esme_rx_r_appn = 0x00000066

abbrev pub esme_rqueryfail : ℕ
esme_rqueryfail = 0x00000067

abbrev pub esme_rinvoptparstream : ℕ
esme_rinvoptparstream = 0x000000C0

abbrev pub esme_roptparnotallwd : ℕ
esme_roptparnotallwd = 0x000000C1

abbrev pub esme_rinvparlen : ℕ
esme_rinvparlen = 0x000000C2

abbrev pub esme_rmissingoptparam : ℕ
esme_rmissingoptparam = 0x000000C3

abbrev pub esme_rinvoptparamval : ℕ
esme_rinvoptparamval = 0x000000C4

abbrev pub esme_rdeliveryfailure : ℕ
esme_rdeliveryfailure = 0x000000FE

abbrev pub esme_runknownerr : ℕ
esme_runknownerr = 0x000000FF
