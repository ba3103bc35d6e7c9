-- ===== src/NetGuard/Tests.antt =====
-- The dialer on a name with a private, a silent and an open address.
use bitlab.Prelude.{◌≡◌, refl, false, List, [], ◌∷◌, some, Bytes, bytes, bytes_eq}
use bitlab.NetGuard.Dial.{Net, connected, private_address, dial_each, dial_resolved, guarded_dial}
use bitlab.NetGuard.Guarded.{
  until_answer, first_answer, outcome_of, public_of, any_public, guarded_dial-public_of,
}

program : Unit {0}
unfolding guarded_dial dial_resolved dial_each private_address bytes_eq
program = tt

abbrev addresses : List Bytes
addresses = bytes "10.0.0.1" ∷ bytes "1.1.1.1" ∷ bytes "9.9.9.9" ∷ bytes "8.8.8.8" ∷ []

abbrev small_net : Net
small_net = record {
  is_loopback = λ ip. false;
  is_private = λ ip. bytes_eq ip (bytes "10.0.0.1");
  is_link_local_unicast = λ ip. false;
  is_link_local_multicast = λ ip. false;
  is_unspecified = λ ip. false;
  is_multicast = λ ip. false;
  in_cidr = λ cidr ip. false;
  split_host_port = λ addr. some (addr, bytes "443");
  lookup_ip_addr = λ host. some addresses;
  connects = λ ip port. bytes_eq ip (bytes "9.9.9.9");
}

dials_public :
    guarded_dial small_net false (bytes "nyaa.si")
    ≡ (connected (bytes "9.9.9.9"), bytes "1.1.1.1" ∷ bytes "9.9.9.9" ∷ [])
unfolding program
dials_public = refl

guarded_dial-public_of_example : guarded_dial small_net false (bytes "nyaa.si") ≡ (
  outcome_of
      (any_public small_net (public_of small_net addresses))
      (first_answer (λ ip. bytes_eq ip (bytes "9.9.9.9")) (public_of small_net addresses)),
  until_answer (λ ip. bytes_eq ip (bytes "9.9.9.9")) (public_of small_net addresses),
)
guarded_dial-public_of_example =
    guarded_dial-public_of small_net (bytes "nyaa.si") (bytes "nyaa.si") (bytes "443") addresses
      refl refl
