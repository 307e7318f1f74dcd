-- ===== src/Wol.antt =====
-- server/app/wol.py: Wake-on-LAN. Texts that are taken apart and byte strings are lists of code
-- points and bytes. The sockets, `/sys`, `ip` and `ssh` are the fields of `Net`.
pub mod Packet
pub mod Send
pub use Packet.{MacError, parse_mac, magic_packet}
pub use Send.{Net, Frame, SendResult, sent, failed, WolError, send, iface_for_ip}
