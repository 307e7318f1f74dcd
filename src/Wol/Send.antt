-- ===== src/Wol/Send.antt =====
-- Sending: `send`, `_send_local`, `_send_via_ssh` and the three queries about an interface.
use mathlib.Core.Option
use ups_orchestrator.Prelude.{
  ℕ, ◌≡◌, refl, String, Option, none, some, List, [], ◌∷◌, ◌++◌, arith, replicate, ◌==◌, str_eq,
  length, if◌then◌else◌,
}
use ups_orchestrator.Wol.Packet.{
  codes, remove, from_hex, MacError, MacResult, mac, bad_mac, mac_hex, parse_mac, magic_packet,
  length-magic_packet,
}

-- A frame or datagram that was handed to the network without an exception.
pub data Frame : Type 0 where
  ethernet : String → List ℕ → Frame  -- interface, bytes
  udp : String → ℕ → List ℕ → Frame  -- address, port, bytes
  relayed : List (List ℕ) → Frame  -- the `ssh` command line

-- A command that ended, with its code and stderr, or that raised.
pub data SshResult : Type 0 where
  completed : ℕ → String → SshResult
  raised : String → SshResult

-- The system around the module; `none` in the first three is an exception.
pub record Net : Type 0 where
  -- the stripped text of /sys/class/net/<iface>/address
  pub address_text : String → Option (List ℕ)
  -- the words of `ip -4 addr show <iface>` and of `ip route get <target>`
  pub addr_words : String → Option (List String)
  pub route_words : String → Option (List String)
  -- the exception that sending raises, if it does
  pub raw_error : String → List ℕ → Option String
  pub udp_error : String → List ℕ → Option String
  pub ssh : List (List ℕ) → SshResult

-- An entry of `errors`: the method and its exception.
pub data MethodError : Type 0 where
  af_packet : String → MethodError
  udp_directed : String → String → MethodError
  udp_global : String → MethodError

pub data WolError : Type 0 where
  invalid : MacError → WolError
  all_methods_failed : List MethodError → WolError
  relay_failed : ℕ → String → WolError
  relay_raised : String → WolError

pub data SendResult : Type 0 where
  sent : Frame → SendResult
  failed : WolError → SendResult

abbrev pub wol_udp_port : ℕ
wol_udp_port = 9

-- `parts[parts.index(word) + 1]`, `none` where the word or the one after it is missing.
pub word_after : String → List String → Option String
word_after word [] = none
word_after word (x ∷ []) = none
word_after word (x ∷ y ∷ ys) =
    let rest = word_after word (y ∷ ys) in if str_eq x word then some y else rest

text_or : String → Option String → String
text_or fallback none = fallback
text_or fallback (some text) = text

find_word : String → Option (List String) → Option String
unfolding word_after
find_word word none = none
find_word word (some parts) = word_after word parts

unfoldable pub iface_for_ip : Net → String → String
unfolding text_or find_word
iface_for_ip net target_ip = text_or "eth0" (find_word "dev" (net.route_words target_ip))

unfoldable pub broadcast_for_iface : Net → String → String
unfolding text_or find_word
broadcast_for_iface net iface = text_or "255.255.255.255" (find_word "brd" (net.addr_words iface))

bytes_or_zero : Option (List ℕ) → List ℕ
bytes_or_zero none = replicate 6 0
bytes_or_zero (some bytes) = bytes

hex_of : Option (List ℕ) → Option (List ℕ)
hex_of none = none
hex_of (some text) = from_hex (remove b':' text)

unfoldable pub mac_for_iface : Net → String → List ℕ
unfolding bytes_or_zero hex_of
mac_for_iface net iface = bytes_or_zero (hex_of (net.address_text iface))

module _ (net : Net) (magic : List ℕ) where
  -- Method 3, with the errors of the first two.
  global_broadcast : List MethodError → Option String → SendResult
  global_broadcast errors none = sent (udp "255.255.255.255" wol_udp_port magic)
  global_broadcast errors (some exc) = failed (all_methods_failed (errors ++ udp_global exc ∷ []))

  -- Method 2.
  directed_broadcast : List MethodError → String → Option String → SendResult
  unfolding global_broadcast
  directed_broadcast errors bcast none = sent (udp bcast wol_udp_port magic)
  directed_broadcast errors bcast (some exc) =
      global_broadcast (errors ++ udp_directed bcast exc ∷ [])
        (net.udp_error "255.255.255.255" magic)

  -- Method 1, with the frame that it builds.
  raw_ethernet : String → List ℕ → Option String → SendResult
  unfolding directed_broadcast broadcast_for_iface
  raw_ethernet iface frame none = sent (ethernet iface frame)
  raw_ethernet iface frame (some exc) =
      let bcast = broadcast_for_iface net iface in
      directed_broadcast (af_packet exc ∷ []) bcast (net.udp_error bcast magic)

  unfoldable pub ethernet_frame : String → List ℕ
  unfolding mac_for_iface
  ethernet_frame iface = replicate 6 255 ++ (mac_for_iface net iface ++ 8 ∷ 66 ∷ magic)

  unfoldable pub send_local : String → SendResult
  unfolding raw_ethernet ethernet_frame
  send_local iface =
      let frame = ethernet_frame iface in raw_ethernet iface frame (net.raw_error iface frame)

-- The program that the relay runs, with the address put in.
pub remote_cmd : List ℕ → List ℕ
remote_cmd hex =
    codes "python3 -c \"import socket; mac=bytes.fromhex('"
    ++ (hex
        ++ codes
            "'); magic=b'\\xff'*6+mac*16; s=socket.socket(socket.AF_INET,socket.SOCK_DGRAM); s.setsockopt(socket.SOL_SOCKET,socket.SO_BROADCAST,1); s.sendto(magic,('255.255.255.255',9)); s.close()\"")

identity_args : String → List (List ℕ)
identity_args identity_file =
    if str_eq identity_file "" then [] else codes "-i" ∷ codes identity_file ∷ []

unfoldable pub ssh_command : String → String → String → List (List ℕ)
unfolding identity_args remote_cmd
ssh_command relay_ssh mac_address identity_file =
    codes "ssh"
    ∷ codes "-o"
    ∷ codes "BatchMode=yes"
    ∷ codes "-o"
    ∷ codes "ConnectTimeout=5"
    ∷ (identity_args identity_file ++ codes relay_ssh ∷ remote_cmd (mac_hex mac_address) ∷ [])

ssh_outcome : List (List ℕ) → SshResult → SendResult
ssh_outcome cmd (raised exc) = failed (relay_raised exc)
ssh_outcome cmd (completed code stderr) =
    if code == 0 then sent (relayed cmd) else failed (relay_failed code stderr)

unfoldable pub send_via_ssh : Net → String → String → String → SendResult
unfolding ssh_outcome ssh_command
send_via_ssh net relay_ssh mac_address identity_file =
    let cmd = ssh_command relay_ssh mac_address identity_file in ssh_outcome cmd (net.ssh cmd)

send_bytes : Net → MacResult → String → String → String → String → SendResult
unfolding send_local send_via_ssh magic_packet
send_bytes net (bad_mac e) mac_address iface relay_ssh identity_file = failed (invalid e)
send_bytes net (mac bytes) mac_address iface relay_ssh identity_file =
    if str_eq relay_ssh ""
    then send_local net (magic_packet bytes) iface
    else send_via_ssh net relay_ssh mac_address identity_file

unfoldable pub send : Net → String → String → String → String → SendResult
unfolding send_bytes parse_mac
send net mac_address iface relay_ssh relay_identity_file =
    send_bytes net (parse_mac mac_address) mac_address iface relay_ssh relay_identity_file

-- The methods in their order, each with the error it would record and the frame it would send.
abbrev pub first_sent : List MethodError → List (Option MethodError × Frame) → SendResult
first_sent errors [] = failed (all_methods_failed errors)
first_sent errors ((none, frame) ∷ rest) = sent frame
first_sent errors ((some e, frame) ∷ rest) = first_sent (errors ++ e ∷ []) rest

-- Local sending is the first of the three methods that does not raise, in the order raw Ethernet,
-- directed broadcast, global broadcast; if all raise it fails with their errors in that order.
send_local-first_sent :
    (net : Net) (magic : List ℕ) (iface : String)
    → let frame = ethernet_frame net magic iface in
      let bcast = broadcast_for_iface net iface in
      send_local net magic iface
      ≡ first_sent [] (
          (Option.map af_packet (net.raw_error iface frame), ethernet iface frame)
          ∷ (Option.map (udp_directed bcast) (net.udp_error bcast magic), udp bcast 9 magic)
          ∷ (
            Option.map udp_global (net.udp_error "255.255.255.255" magic),
            udp "255.255.255.255" 9 magic,
          )
          ∷ [])
unfolding send_local
send_local-first_sent net magic iface = ground arith

send_bytes-sent :
    (net : Net) (r : MacResult) (a iface relay identity : String) {frame : Frame}
    → send_bytes net r a iface relay identity ≡ sent frame
    → (bytes : List ℕ) × (r ≡ mac bytes)
unfolding send_bytes
send_bytes-sent net (bad_mac e) a iface relay identity h = cc
send_bytes-sent net (mac bytes) a iface relay identity h = (bytes, refl)

-- Nothing is sent, locally or by a relay, for an address that is not six bytes of hexadecimal
-- digits: what is sent carries a 102-byte magic packet of the address that was parsed.
pub send-valid :
    (net : Net) (a iface relay identity : String) {frame : Frame}
    → send net a iface relay identity ≡ sent frame
    → (bytes : List ℕ) × (parse_mac a ≡ mac bytes) × (length (magic_packet bytes) ≡ 102)
unfolding send
send-valid net a iface relay identity h =
    let (bytes, e) = send_bytes-sent net (parse_mac a) a iface relay identity h in
    (bytes, e, length-magic_packet a e)
