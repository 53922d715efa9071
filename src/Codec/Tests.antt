-- ===== src/Codec/Tests.antt =====
-- The codec at work: a submit_multi with two destinations and an optional parameter.
use libsmpp.Prelude.{
  ℕ, ◌≡◌, ◌≤◌, refl, some, none, List, [], ◌∷◌, ◌++◌, length, replicate, length-replicate, arith,
}
use libsmpp.Codec.Fitting.{AreOctets, FitsPduOf}
use libsmpp.Codec.Sound.Pdus.{smpp34_unpack-FitsPduOf}
use libsmpp.Codec.Monotone.{smpp34_pack-more}
use libsmpp.Codec.Limits.{octet8_limit}
use libsmpp.Codec.TlvId
use libsmpp.Codec.CommandId
use libsmpp.Codec.Checks.{
  valid, one_of, command_ids, command_statuses, addr_tons, addr_npis, dest_flags,
}
use libsmpp.Codec.Rules.{kind_of}
use libsmpp.Codec.Frames.{frame_of}
use libsmpp.Codec.Octets.{
  skip, ◌▹◌, big_endian, pack_word, truncated, pack_c_octet, pack_octet8, unpack_octets,
  unpack_word, take_word, ◌▸◌, give,
}
use libsmpp.Codec.Fields.{
  Dad, sme_address, distribution_list_name, pack_field, packed_field, pack_struct, packed_struct,
  pack_dad, packed_dad, pack_chain, pack_part, packed_part, pack_parts, packed_parts, unpack_parts,
  unpack_part, unpack_field,
}
use libsmpp.Codec.Pdu.{
  PduOf, pack_tlv_value, pack_tlv, pack_tlvs, pack_frame, pack_any, smpp34_pack, smpp34_unpack,
  unpack_any, unpack_frame, unpack_optional,
}
use libsmpp.Codec.Assembled.{command_length, smpp34_pack_room}
use libsmpp.Codec.RoundTrip.Pdus.{IsPduOf, received, smpp34_unpack-pack}

abbrev first_dad : Dad
first_dad = sme_address (1, (1, (0x35 ∷ 0x39 ∷ [], tt)))

abbrev second_dad : Dad
second_dad = distribution_list_name (0x61 ∷ [])

-- `command_length` is not set yet.
abbrev multi : PduOf (frame_of CommandId.submit_multi)
unfolding frame_of kind_of
multi = (
  0,
  (
    0x21,
    (
      0,
      (
        7,
        (
          [],
          (
            1,
            (
              1,
              (
                0x31 ∷ 0x32 ∷ [],
                (
                  (2, first_dad ∷ second_dad ∷ []),
                  (0, (0, (0, ([], ([], (0, (0, (0, (0, ((2, 0x68 ∷ 0x69 ∷ []), tt)))))))))),
                ),
              ),
            ),
          ),
        ),
      ),
    ),
  ),
  (TlvId.source_port, 2, 0x1234) ∷ [],
)

-- What `smpp34_pack` leaves in the struct.
abbrev sent : PduOf (frame_of CommandId.submit_multi)
unfolding frame_of kind_of
sent = (
  50,
  (
    0x21,
    (
      0,
      (
        7,
        (
          [],
          (
            1,
            (
              1,
              (
                0x31 ∷ 0x32 ∷ [],
                (
                  (2, first_dad ∷ second_dad ∷ []),
                  (0, (0, (0, ([], ([], (0, (0, (0, (0, ((2, 0x68 ∷ 0x69 ∷ []), tt)))))))))),
                ),
              ),
            ),
          ),
        ),
      ),
    ),
  ),
  (TlvId.source_port, 2, 0x1234) ∷ [],
)

abbrev multi_octets : List ℕ
multi_octets =
    0 ∷ 0 ∷ 0 ∷ 50 ∷ 0 ∷ 0 ∷ 0 ∷ 33 ∷ 0 ∷ 0 ∷ 0 ∷ 0 ∷ 0 ∷ 0 ∷ 0 ∷ 7 ∷ 0 ∷ 1 ∷ 1 ∷ 49 ∷ 50 ∷ 0 ∷ 2
    ∷ 1 ∷ 1 ∷ 1 ∷ 53 ∷ 57 ∷ 0 ∷ 2 ∷ 97 ∷ 0 ∷ 0 ∷ 0 ∷ 0 ∷ 0 ∷ 0 ∷ 0 ∷ 0 ∷ 0 ∷ 0 ∷ 2 ∷ 104 ∷ 105 ∷ 2
    ∷ 10 ∷ 0 ∷ 2 ∷ 18 ∷ 52 ∷ []

multi_packed : smpp34_pack CommandId.submit_multi 100 multi ≡ some (multi_octets, sent)
unfolding smpp34_pack pack_any pack_frame frame_of pack_parts pack_part pack_field pack_word
    pack_c_octet pack_octet8 pack_chain pack_dad pack_struct pack_tlvs pack_tlv pack_tlv_value
    kind_of packed_parts packed_part packed_field packed_dad packed_struct truncated valid one_of
    command_ids command_statuses addr_tons addr_npis dest_flags skip ◌▹◌ big_endian
multi_packed = refl

multi-IsPduOf : IsPduOf (frame_of CommandId.submit_multi) multi
unfolding frame_of kind_of
multi-IsPduOf = (
  (
    omega arith,
    (
      omega arith,
      (
        omega arith,
        (
          tt,
          (
            omega arith,
            (
              omega arith,
              (
                ((λ h. absurd (omega arith)), ((λ h. absurd (omega arith)), tt)),
                (
                  (
                    omega arith,
                    refl,
                    (
                      (
                        omega arith,
                        (
                          omega arith,
                          (((λ h. absurd (omega arith)), ((λ h. absurd (omega arith)), tt)), tt),
                        ),
                      ),
                      (((λ h. absurd (omega arith)), tt), tt),
                    ),
                  ),
                  (
                    omega arith,
                    (
                      omega arith,
                      (
                        omega arith,
                        (
                          tt,
                          (
                            tt,
                            (
                              omega arith,
                              (
                                omega arith,
                                (omega arith, (omega arith, ((omega arith, refl), tt))),
                              ),
                            ),
                          ),
                        ),
                      ),
                    ),
                  ),
                ),
              ),
            ),
          ),
        ),
      ),
    ),
  ),
  ((omega arith, omega arith, omega arith), tt),
)

smpp34_unpack-pack_example :
    smpp34_unpack CommandId.submit_multi (multi_octets ++ (0xFF ∷ []))
    ≡ some (received (frame_of CommandId.submit_multi) sent)
smpp34_unpack-pack_example =
    smpp34_unpack-pack CommandId.submit_multi 100 multi sent multi_octets (0xFF ∷ []) multi-IsPduOf
      (omega arith) multi_packed

smpp34_pack_room_example :
    (length multi_octets ≤ 100)
    × (command_length (frame_of CommandId.submit_multi) sent ≡ length multi_octets)
smpp34_pack_room_example =
    smpp34_pack_room CommandId.submit_multi 100 multi sent multi_octets multi_packed

-- A full field of 254 octets.
abbrev full_message : List ℕ
full_message = replicate 254 0x61

octet8_limit_example :
    (pack_octet8 254 (length full_message) full_message 4096 ≡ none)
    × (unpack_octets 254 (length full_message) (full_message ++ []) ≡ some (full_message, []))
octet8_limit_example = octet8_limit 254 4096 full_message [] (length-replicate {A = ℕ} 254 0x61)

-- An ENQUIRE_LINK.
abbrev link_octets : List ℕ
link_octets = 0 ∷ 0 ∷ 0 ∷ 16 ∷ 0 ∷ 0 ∷ 0 ∷ 21 ∷ 0 ∷ 0 ∷ 0 ∷ 0 ∷ 0 ∷ 0 ∷ 0 ∷ 7 ∷ []

abbrev link : PduOf (frame_of CommandId.enquire_link)
unfolding frame_of
link = (16, (0x15, (0, (7, tt))), tt)

link_unpacked : smpp34_unpack CommandId.enquire_link link_octets ≡ some link
unfolding smpp34_unpack unpack_any unpack_frame frame_of unpack_word take_word unpack_parts
    unpack_part unpack_field ◌▸◌ give unpack_optional valid one_of command_ids command_statuses
link_unpacked = refl

link-AreOctets : AreOctets link_octets
link-AreOctets = (
  omega arith,
  (
    omega arith,
    (
      omega arith,
      (
        omega arith,
        (
          omega arith,
          (
            omega arith,
            (
              omega arith,
              (
                omega arith,
                (
                  omega arith,
                  (
                    omega arith,
                    (
                      omega arith,
                      (omega arith, (omega arith, (omega arith, (omega arith, (omega arith, tt))))),
                    ),
                  ),
                ),
              ),
            ),
          ),
        ),
      ),
    ),
  ),
)

smpp34_unpack-FitsPduOf_example :
    FitsPduOf (frame_of CommandId.enquire_link) link
    × (command_length (frame_of CommandId.enquire_link) link ≤ 16)
smpp34_unpack-FitsPduOf_example =
    smpp34_unpack-FitsPduOf CommandId.enquire_link link_octets link link-AreOctets link_unpacked

multi_packed_larger : smpp34_pack CommandId.submit_multi 4096 multi ≡ some (multi_octets, sent)
multi_packed_larger =
    smpp34_pack-more CommandId.submit_multi 100 4096 multi sent multi_octets (omega arith)
      multi_packed
