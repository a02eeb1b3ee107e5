-- ===== src/DataLink.antt =====
-- `DataLink` of src/common.rs: the link types, and their conversions from and to `u32`.
pub mod Laws
use pcap_file.Common.{ℕ, List, [], ◌∷◌, ◌==◌, if◌then◌else◌}

pub data DataLink : Type 0 where
  null ethernet exp_ethernet ax25 pronet chaos ieee802_5 arcnet_bsd slip ppp fddi : DataLink
  ppp_hdlc ppp_ether symantec_firewall atm_rfc1483 raw slip_bsdos ppp_bsdos : DataLink
  matching_min c_hdlc ieee802_11 atm_clip frelay loop enc lane8023 hippi netbsd_hdlc : DataLink
  linux_sll ltalk econet ipfilter pflog cisco_ios ieee802_11_prism ieee802_11_aironet : DataLink
  hhdlc ip_over_fc sunatm rio pci_exp aurora ieee802_11_radiotap tzsp arcnet_linux : DataLink
  juniper_mlppp juniper_mlfr juniper_es juniper_ggsn juniper_mfr juniper_atm2 : DataLink
  juniper_services juniper_atm1 apple_ip_over_ieee1394 mtp2_with_phdr mtp2 mtp3 sccp : DataLink
  docsis linux_irda ibm_sp ibm_sn user0 user1 user2 user3 user4 user5 user6 user7 user8 : DataLink
  user9 user10 user11 user12 user13 user14 user15 ieee802_11_avs juniper_monitor : DataLink
  bacnet_ms_tp ppp_pppd juniper_pppoe juniper_pppoe_atm gprs_llc gpf_t gpf_f gcom_t1e1 : DataLink
  gcom_serial juniper_pic_peer erf_eth erf_pos linux_lapd juniper_ether juniper_ppp : DataLink
  juniper_frelay juniper_chdlc mfr juniper_vp a429 a653_icm usb_freebsd : DataLink
  bluetooth_hci_h4 ieee802_16_mac_cps usb_linux can20b ieee802_15_4_linux ppi : DataLink
  ieee802_16_mac_cps_radio juniper_ism ieee802_15_4 sita erf raif1 ipmb_kontron : DataLink
  juniper_st bluetooth_hci_h4_with_phdr ax25_kiss lapd ppp_with_dir c_hdlc_with_dir : DataLink
  frelay_with_dir lapb_with_dir ipmb_linux flexray most lin x2e_serial x2e_xoraya : DataLink
  ieee802_15_4_nonask_phy linux_evdev gsmtap_um gsmtap_abis mpls usb_linux_mmapped dect : DataLink
  aos wihart fc_2 fc_2_with_frame_delims ipnet can_socketcan ipv4 ipv6 : DataLink
  ieee802_15_4_nofcs dbus juniper_vs juniper_srx_e2e juniper_fibrechannel dvb_ci : DataLink
  mux27010 stanag_5066_d_pdu juniper_atm_cemic nflog netanalyzer : DataLink
  netanalyzer_transparent ipoib mpeg_2_ts ng40 nfc_llcp pfsync infiniband sctp usbpcap : DataLink
  rtac_serial bluetooth_le_ll wireshark_upper_pdu netlink bluetooth_linux_monitor : DataLink
  bluetooth_bredr_bb bluetooth_le_ll_with_phdr profibus_dl pktap epon ipmi_hpm_2 : DataLink
  zwave_r1_r2 zwave_r3 wattstopper_dlm iso_14443 rds usb_darwin openflow sdlc : DataLink
  ti_lln_sniffer loratap vsock nordic_ble docsis31_xra31 ethernet_mpacket : DataLink
  displayport_aux linux_sll2 sercos_monitor openvizsla ebhscr vpp_dispatch dsa_tag_brcm : DataLink
  dsa_tag_brcm_prepend ieee802_15_4_tap dsa_tag_dsa dsa_tag_edsa elee z_wave_serial : DataLink
  usb_2_0 atsc_alp etw netanalyzer_ng zboss_ncp usb_2_0_low_speed usb_2_0_full_speed : DataLink
  usb_2_0_high_speed auerswald_log : DataLink
  unknown : ℕ → DataLink

-- The arms of the match in `From<u32> for DataLink`, in order; the last arm is `unknown`.
abbrev pub link_types : List (ℕ × DataLink)
link_types =
    (0, null)
    ∷ (1, ethernet)
    ∷ (2, exp_ethernet)
    ∷ (3, ax25)
    ∷ (4, pronet)
    ∷ (5, chaos)
    ∷ (6, ieee802_5)
    ∷ (7, arcnet_bsd)
    ∷ (8, slip)
    ∷ (9, ppp)
    ∷ (10, fddi)
    ∷ (50, ppp_hdlc)
    ∷ (51, ppp_ether)
    ∷ (99, symantec_firewall)
    ∷ (100, atm_rfc1483)
    ∷ (101, raw)
    ∷ (102, slip_bsdos)
    ∷ (103, ppp_bsdos)
    ∷ (104, c_hdlc)
    ∷ (105, ieee802_11)
    ∷ (106, atm_clip)
    ∷ (107, frelay)
    ∷ (108, loop)
    ∷ (109, enc)
    ∷ (110, lane8023)
    ∷ (111, hippi)
    ∷ (112, netbsd_hdlc)
    ∷ (113, linux_sll)
    ∷ (114, ltalk)
    ∷ (115, econet)
    ∷ (116, ipfilter)
    ∷ (117, pflog)
    ∷ (118, cisco_ios)
    ∷ (119, ieee802_11_prism)
    ∷ (120, ieee802_11_aironet)
    ∷ (121, hhdlc)
    ∷ (122, ip_over_fc)
    ∷ (123, sunatm)
    ∷ (124, rio)
    ∷ (125, pci_exp)
    ∷ (126, aurora)
    ∷ (127, ieee802_11_radiotap)
    ∷ (128, tzsp)
    ∷ (129, arcnet_linux)
    ∷ (130, juniper_mlppp)
    ∷ (131, juniper_mlfr)
    ∷ (132, juniper_es)
    ∷ (133, juniper_ggsn)
    ∷ (134, juniper_mfr)
    ∷ (135, juniper_atm2)
    ∷ (136, juniper_services)
    ∷ (137, juniper_atm1)
    ∷ (138, apple_ip_over_ieee1394)
    ∷ (139, mtp2_with_phdr)
    ∷ (140, mtp2)
    ∷ (141, mtp3)
    ∷ (142, sccp)
    ∷ (143, docsis)
    ∷ (144, linux_irda)
    ∷ (145, ibm_sp)
    ∷ (146, ibm_sn)
    ∷ (147, user0)
    ∷ (148, user1)
    ∷ (149, user2)
    ∷ (150, user3)
    ∷ (151, user4)
    ∷ (152, user5)
    ∷ (153, user6)
    ∷ (154, user7)
    ∷ (155, user8)
    ∷ (156, user9)
    ∷ (157, user10)
    ∷ (158, user11)
    ∷ (159, user12)
    ∷ (160, user13)
    ∷ (161, user14)
    ∷ (162, user15)
    ∷ (163, ieee802_11_avs)
    ∷ (164, juniper_monitor)
    ∷ (165, bacnet_ms_tp)
    ∷ (166, ppp_pppd)
    ∷ (167, juniper_pppoe)
    ∷ (168, juniper_pppoe_atm)
    ∷ (169, gprs_llc)
    ∷ (170, gpf_t)
    ∷ (171, gpf_f)
    ∷ (172, gcom_t1e1)
    ∷ (173, gcom_serial)
    ∷ (174, juniper_pic_peer)
    ∷ (175, erf_eth)
    ∷ (176, erf_pos)
    ∷ (177, linux_lapd)
    ∷ (178, juniper_ether)
    ∷ (179, juniper_ppp)
    ∷ (180, juniper_frelay)
    ∷ (181, juniper_chdlc)
    ∷ (182, mfr)
    ∷ (183, juniper_vp)
    ∷ (184, a429)
    ∷ (185, a653_icm)
    ∷ (186, usb_freebsd)
    ∷ (187, bluetooth_hci_h4)
    ∷ (188, ieee802_16_mac_cps)
    ∷ (189, usb_linux)
    ∷ (190, can20b)
    ∷ (191, ieee802_15_4_linux)
    ∷ (192, ppi)
    ∷ (193, ieee802_16_mac_cps_radio)
    ∷ (194, juniper_ism)
    ∷ (195, ieee802_15_4)
    ∷ (196, sita)
    ∷ (197, erf)
    ∷ (198, raif1)
    ∷ (199, ipmb_kontron)
    ∷ (200, juniper_st)
    ∷ (201, bluetooth_hci_h4_with_phdr)
    ∷ (202, ax25_kiss)
    ∷ (203, lapd)
    ∷ (204, ppp_with_dir)
    ∷ (205, c_hdlc_with_dir)
    ∷ (206, frelay_with_dir)
    ∷ (207, lapb_with_dir)
    ∷ (209, ipmb_linux)
    ∷ (210, flexray)
    ∷ (211, most)
    ∷ (212, lin)
    ∷ (213, x2e_serial)
    ∷ (214, x2e_xoraya)
    ∷ (215, ieee802_15_4_nonask_phy)
    ∷ (216, linux_evdev)
    ∷ (217, gsmtap_um)
    ∷ (218, gsmtap_abis)
    ∷ (219, mpls)
    ∷ (220, usb_linux_mmapped)
    ∷ (221, dect)
    ∷ (222, aos)
    ∷ (223, wihart)
    ∷ (224, fc_2)
    ∷ (225, fc_2_with_frame_delims)
    ∷ (226, ipnet)
    ∷ (227, can_socketcan)
    ∷ (228, ipv4)
    ∷ (229, ipv6)
    ∷ (230, ieee802_15_4_nofcs)
    ∷ (231, dbus)
    ∷ (232, juniper_vs)
    ∷ (233, juniper_srx_e2e)
    ∷ (234, juniper_fibrechannel)
    ∷ (235, dvb_ci)
    ∷ (236, mux27010)
    ∷ (237, stanag_5066_d_pdu)
    ∷ (238, juniper_atm_cemic)
    ∷ (239, nflog)
    ∷ (240, netanalyzer)
    ∷ (241, netanalyzer_transparent)
    ∷ (242, ipoib)
    ∷ (243, mpeg_2_ts)
    ∷ (244, ng40)
    ∷ (245, nfc_llcp)
    ∷ (246, pfsync)
    ∷ (247, infiniband)
    ∷ (248, sctp)
    ∷ (249, usbpcap)
    ∷ (250, rtac_serial)
    ∷ (251, bluetooth_le_ll)
    ∷ (252, wireshark_upper_pdu)
    ∷ (253, netlink)
    ∷ (254, bluetooth_linux_monitor)
    ∷ (255, bluetooth_bredr_bb)
    ∷ (256, bluetooth_le_ll_with_phdr)
    ∷ (257, profibus_dl)
    ∷ (258, pktap)
    ∷ (259, epon)
    ∷ (260, ipmi_hpm_2)
    ∷ (261, zwave_r1_r2)
    ∷ (262, zwave_r3)
    ∷ (263, wattstopper_dlm)
    ∷ (264, iso_14443)
    ∷ (265, rds)
    ∷ (266, usb_darwin)
    ∷ (267, openflow)
    ∷ (268, sdlc)
    ∷ (269, ti_lln_sniffer)
    ∷ (270, loratap)
    ∷ (271, vsock)
    ∷ (272, nordic_ble)
    ∷ (273, docsis31_xra31)
    ∷ (274, ethernet_mpacket)
    ∷ (275, displayport_aux)
    ∷ (276, linux_sll2)
    ∷ (277, sercos_monitor)
    ∷ (278, openvizsla)
    ∷ (279, ebhscr)
    ∷ (280, vpp_dispatch)
    ∷ (281, dsa_tag_brcm)
    ∷ (282, dsa_tag_brcm_prepend)
    ∷ (283, ieee802_15_4_tap)
    ∷ (284, dsa_tag_dsa)
    ∷ (285, dsa_tag_edsa)
    ∷ (286, elee)
    ∷ (287, z_wave_serial)
    ∷ (288, usb_2_0)
    ∷ (289, atsc_alp)
    ∷ (290, etw)
    ∷ (291, netanalyzer_ng)
    ∷ (292, zboss_ncp)
    ∷ (293, usb_2_0_low_speed)
    ∷ (294, usb_2_0_full_speed)
    ∷ (295, usb_2_0_high_speed)
    ∷ (296, auerswald_log)
    ∷ []

unfoldable pub find_link : ℕ → List (ℕ × DataLink) → DataLink
find_link n [] = unknown n
find_link n ((k, d) ∷ arms) = if n == k then d else find_link n arms

-- `DataLink::from(n)`
unfoldable pub from_u32 : ℕ → DataLink
from_u32 n = find_link n link_types

-- `u32::from(link)`
unfoldable pub to_u32 : DataLink → ℕ
to_u32 null = 0
to_u32 ethernet = 1
to_u32 exp_ethernet = 2
to_u32 ax25 = 3
to_u32 pronet = 4
to_u32 chaos = 5
to_u32 ieee802_5 = 6
to_u32 arcnet_bsd = 7
to_u32 slip = 8
to_u32 ppp = 9
to_u32 fddi = 10
to_u32 ppp_hdlc = 50
to_u32 ppp_ether = 51
to_u32 symantec_firewall = 99
to_u32 atm_rfc1483 = 100
to_u32 raw = 101
to_u32 slip_bsdos = 102
to_u32 ppp_bsdos = 103
to_u32 matching_min = 104
to_u32 c_hdlc = 104
to_u32 ieee802_11 = 105
to_u32 atm_clip = 106
to_u32 frelay = 107
to_u32 loop = 108
to_u32 enc = 109
to_u32 lane8023 = 110
to_u32 hippi = 111
to_u32 netbsd_hdlc = 112
to_u32 linux_sll = 113
to_u32 ltalk = 114
to_u32 econet = 115
to_u32 ipfilter = 116
to_u32 pflog = 117
to_u32 cisco_ios = 118
to_u32 ieee802_11_prism = 119
to_u32 ieee802_11_aironet = 120
to_u32 hhdlc = 121
to_u32 ip_over_fc = 122
to_u32 sunatm = 123
to_u32 rio = 124
to_u32 pci_exp = 125
to_u32 aurora = 126
to_u32 ieee802_11_radiotap = 127
to_u32 tzsp = 128
to_u32 arcnet_linux = 129
to_u32 juniper_mlppp = 130
to_u32 juniper_mlfr = 131
to_u32 juniper_es = 132
to_u32 juniper_ggsn = 133
to_u32 juniper_mfr = 134
to_u32 juniper_atm2 = 135
to_u32 juniper_services = 136
to_u32 juniper_atm1 = 137
to_u32 apple_ip_over_ieee1394 = 138
to_u32 mtp2_with_phdr = 139
to_u32 mtp2 = 140
to_u32 mtp3 = 141
to_u32 sccp = 142
to_u32 docsis = 143
to_u32 linux_irda = 144
to_u32 ibm_sp = 145
to_u32 ibm_sn = 146
to_u32 user0 = 147
to_u32 user1 = 148
to_u32 user2 = 149
to_u32 user3 = 150
to_u32 user4 = 151
to_u32 user5 = 152
to_u32 user6 = 153
to_u32 user7 = 154
to_u32 user8 = 155
to_u32 user9 = 156
to_u32 user10 = 157
to_u32 user11 = 158
to_u32 user12 = 159
to_u32 user13 = 160
to_u32 user14 = 161
to_u32 user15 = 162
to_u32 ieee802_11_avs = 163
to_u32 juniper_monitor = 164
to_u32 bacnet_ms_tp = 165
to_u32 ppp_pppd = 166
to_u32 juniper_pppoe = 167
to_u32 juniper_pppoe_atm = 168
to_u32 gprs_llc = 169
to_u32 gpf_t = 170
to_u32 gpf_f = 171
to_u32 gcom_t1e1 = 172
to_u32 gcom_serial = 173
to_u32 juniper_pic_peer = 174
to_u32 erf_eth = 175
to_u32 erf_pos = 176
to_u32 linux_lapd = 177
to_u32 juniper_ether = 178
to_u32 juniper_ppp = 179
to_u32 juniper_frelay = 180
to_u32 juniper_chdlc = 181
to_u32 mfr = 182
to_u32 juniper_vp = 183
to_u32 a429 = 184
to_u32 a653_icm = 185
to_u32 usb_freebsd = 186
to_u32 bluetooth_hci_h4 = 187
to_u32 ieee802_16_mac_cps = 188
to_u32 usb_linux = 189
to_u32 can20b = 190
to_u32 ieee802_15_4_linux = 191
to_u32 ppi = 192
to_u32 ieee802_16_mac_cps_radio = 193
to_u32 juniper_ism = 194
to_u32 ieee802_15_4 = 195
to_u32 sita = 196
to_u32 erf = 197
to_u32 raif1 = 198
to_u32 ipmb_kontron = 199
to_u32 juniper_st = 200
to_u32 bluetooth_hci_h4_with_phdr = 201
to_u32 ax25_kiss = 202
to_u32 lapd = 203
to_u32 ppp_with_dir = 204
to_u32 c_hdlc_with_dir = 205
to_u32 frelay_with_dir = 206
to_u32 lapb_with_dir = 207
to_u32 ipmb_linux = 209
to_u32 flexray = 210
to_u32 most = 211
to_u32 lin = 212
to_u32 x2e_serial = 213
to_u32 x2e_xoraya = 214
to_u32 ieee802_15_4_nonask_phy = 215
to_u32 linux_evdev = 216
to_u32 gsmtap_um = 217
to_u32 gsmtap_abis = 218
to_u32 mpls = 219
to_u32 usb_linux_mmapped = 220
to_u32 dect = 221
to_u32 aos = 222
to_u32 wihart = 223
to_u32 fc_2 = 224
to_u32 fc_2_with_frame_delims = 225
to_u32 ipnet = 226
to_u32 can_socketcan = 227
to_u32 ipv4 = 228
to_u32 ipv6 = 229
to_u32 ieee802_15_4_nofcs = 230
to_u32 dbus = 231
to_u32 juniper_vs = 232
to_u32 juniper_srx_e2e = 233
to_u32 juniper_fibrechannel = 234
to_u32 dvb_ci = 235
to_u32 mux27010 = 236
to_u32 stanag_5066_d_pdu = 237
to_u32 juniper_atm_cemic = 238
to_u32 nflog = 239
to_u32 netanalyzer = 240
to_u32 netanalyzer_transparent = 241
to_u32 ipoib = 242
to_u32 mpeg_2_ts = 243
to_u32 ng40 = 244
to_u32 nfc_llcp = 245
to_u32 pfsync = 246
to_u32 infiniband = 247
to_u32 sctp = 248
to_u32 usbpcap = 249
to_u32 rtac_serial = 250
to_u32 bluetooth_le_ll = 251
to_u32 wireshark_upper_pdu = 252
to_u32 netlink = 253
to_u32 bluetooth_linux_monitor = 254
to_u32 bluetooth_bredr_bb = 255
to_u32 bluetooth_le_ll_with_phdr = 256
to_u32 profibus_dl = 257
to_u32 pktap = 258
to_u32 epon = 259
to_u32 ipmi_hpm_2 = 260
to_u32 zwave_r1_r2 = 261
to_u32 zwave_r3 = 262
to_u32 wattstopper_dlm = 263
to_u32 iso_14443 = 264
to_u32 rds = 265
to_u32 usb_darwin = 266
to_u32 openflow = 267
to_u32 sdlc = 268
to_u32 ti_lln_sniffer = 269
to_u32 loratap = 270
to_u32 vsock = 271
to_u32 nordic_ble = 272
to_u32 docsis31_xra31 = 273
to_u32 ethernet_mpacket = 274
to_u32 displayport_aux = 275
to_u32 linux_sll2 = 276
to_u32 sercos_monitor = 277
to_u32 openvizsla = 278
to_u32 ebhscr = 279
to_u32 vpp_dispatch = 280
to_u32 dsa_tag_brcm = 281
to_u32 dsa_tag_brcm_prepend = 282
to_u32 ieee802_15_4_tap = 283
to_u32 dsa_tag_dsa = 284
to_u32 dsa_tag_edsa = 285
to_u32 elee = 286
to_u32 z_wave_serial = 287
to_u32 usb_2_0 = 288
to_u32 atsc_alp = 289
to_u32 etw = 290
to_u32 netanalyzer_ng = 291
to_u32 zboss_ncp = 292
to_u32 usb_2_0_low_speed = 293
to_u32 usb_2_0_full_speed = 294
to_u32 usb_2_0_high_speed = 295
to_u32 auerswald_log = 296
to_u32 (unknown n) = n
