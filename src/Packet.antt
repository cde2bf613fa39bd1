-- ===== src/Packet.antt =====
-- include/packet.h: the object, its enumerations, what its methods reach outside it, and the small
-- methods of src/packet.cpp that the others share.
pub mod Index
pub mod Build
pub mod Wire
pub mod Assemble
pub mod Send
pub mod Rebuild
use p2purr.Base.{
  ℕ, ◌+◌, ◌-◌, ◌*◌, ◌/◌, ◌%◌, ◌^◌, ◌<◌, ◌≡◌, Bool, true, false, not, Option, none, some, List,
  length, ltb, if◌then◌else◌, ℤ, pos, negsuc, ltb_ℤ, Outcome, ok, throw, fault, M, packet_exception,
}

pub data PacketType : Type 0 where
  text_plain text_csv text_xml application_json application_xml application_yamal : PacketType
  application_pdf image_jpeg image_png image_gif image_tiff : PacketType
  audio_mpeg audio_mp4 video_mp4 video_mpeg generic_file : PacketType

-- The underlying values. A field of `Packet` holds such a value, since a cast of a received byte may
-- yield one that no enumerator names.
abbrev pub type_value : PacketType → ℕ
type_value text_plain = 1
type_value text_csv = 2
type_value text_xml = 3
type_value application_json = 4
type_value application_xml = 5
type_value application_yamal = 6
type_value application_pdf = 7
type_value image_jpeg = 8
type_value image_png = 9
type_value image_gif = 10
type_value image_tiff = 11
type_value audio_mpeg = 13
type_value audio_mp4 = 14
type_value video_mp4 = 15
type_value video_mpeg = 16
type_value generic_file = 17

pub data PacketEncoding : Type 0 where
  base64 elwin_enc : PacketEncoding

abbrev pub encoding_value : PacketEncoding → ℕ
encoding_value base64 = 1
encoding_value elwin_enc = 2

pub data PacketCompression : Type 0 where
  gzip lzma _7zip : PacketCompression

abbrev pub compression_value : PacketCompression → ℕ
compression_value gzip = 1
compression_value lzma = 2
compression_value _7zip = 3

pub data PacketEncryption : Type 0 where
  last : PacketEncryption

abbrev pub encryption_value : PacketEncryption → ℕ
encryption_value last = 0

pub data PacketCharSet : Type 0 where
  iso8859_1 utf8 ascii : PacketCharSet

abbrev pub charset_value : PacketCharSet → ℕ
charset_value iso8859_1 = 1
charset_value utf8 = 2
charset_value ascii = 3

-- `class Packet`. A null pointer is `none`. `buff_next` is an offset from the start of `buffer`;
-- `has_buffer` and `has_buff_idx` say whether `buffer` and `curr_buff_idx` point to the receive
-- buffer and the index that the connection owns, or are null.
pub record Packet : Type 0 where
  pub type : ℕ
  pub charset : ℕ
  pub encoding : ℕ
  pub encryption : ℕ
  pub compression : ℕ
  pub attachment_file_path : List ℕ
  pub has_file_attachment : Bool
  pub built_pkt : Option (List ℕ)
  pub header : Option (List ℕ)
  pub payload : Option (List ℕ)
  pub pkt_len : ℤ
  pub full_hdr_len : ℕ
  pub hdr_len : ℕ
  pub payload_len : ℕ
  pub has_buffer : Bool
  pub has_buff_idx : Bool
  pub buff_total_len : ℤ
  pub buff_local_len : ℤ
  pub buff_pos_start : ℤ
  pub buff_next : ℕ
  pub num_bytes_read : ℕ
  pub pkt_built : Bool
  pub pkt_rebuilding : Bool
  pub keepalive : Bool

-- What lies outside the program: the contents of memory that nothing has written yet (`malloc`, a
-- local array, an object before its constructor), the files that can be read, and whether "out.txt"
-- can be opened for writing.
pub record Platform : Type 0 where
  pub uninitialised : ℕ → List ℕ
  pub length-uninitialised : (n : ℕ) → length (uninitialised n) ≡ n
  pub raw_packet : Packet
  pub read_file : List ℕ → Option (List ℕ)
  pub can_write : Bool

-- A packet with what its pointers lead to: the connection's receive buffer, `*curr_buff_idx`, and the
-- contents last written to "out.txt".
pub record Context : Type 0 where
  pub packet : Packet
  pub open packet use *
  pub recv_buffer : List ℕ
  pub buff_idx : ℕ
  pub out_file : Option (List ℕ)

abbrev pub PacketM : Type 0 → Type 0
PacketM = M Context

-- `(int) x` of an `unsigned int`, and `(unsigned int) x` of an `int`.
abbrev pub to_int32 : ℕ → ℤ
to_int32 x = if ltb x (2 ^ 31) then pos x else negsuc (2 ^ 32 - x - 1)

abbrev pub to_uint32 : ℤ → ℕ
to_uint32 (pos n) = n % 2 ^ 32
to_uint32 (negsuc n) = 2 ^ 32 - (n + 1)

-- `bool Packet::is_build_done()` and `bool Packet::is_build_pending()`
abbrev pub is_build_done : Packet → Bool
is_build_done p = p.pkt_built

abbrev is_build_pending : Packet → Bool
is_build_pending p = p.pkt_rebuilding

-- `uint8_t* Packet::get_payload()`, `uint8_t* Packet::get_packet()`, `int Packet::get_pkt_len()`
abbrev get_payload : Packet → Option (List ℕ)
get_payload p = p.payload

abbrev pub get_packet : Packet → Option (List ℕ)
get_packet p = p.built_pkt

abbrev pub get_pkt_len : Packet → ℤ
get_pkt_len p = p.pkt_len

-- `void Packet::set_build_pending(bool is_pending)`
unfoldable pub set_build_pending : Packet → Bool → Packet
set_build_pending p true = record p { pkt_rebuilding = true; pkt_built = false }
set_build_pending p false = record p {
  pkt_rebuilding = false;
  pkt_built = true;
  has_buffer = false;
  has_buff_idx = false;
  buff_next = if p.has_buffer then 0 else p.buff_next;
  buff_total_len = negsuc 0;
  buff_local_len = negsuc 0;
  buff_pos_start = negsuc 0;
}

-- `~Packet()`, which lets go of the buffer and the index.
abbrev free_packet : Packet → Packet
free_packet p = record p { buff_next = 0; has_buffer = false; has_buff_idx = false }

-- `void Packet::set_build_done(bool is_build_done)`
unfoldable pub set_build_done : Packet → Bool → Packet
set_build_done p done = record p { pkt_built = done; pkt_rebuilding = not done }

-- `void set_buff_size(size_t buff_size)`
unfoldable pub set_buff_size : Packet → ℕ → Packet
set_buff_size p size = record p { buff_total_len = to_int32 (size % 2 ^ 32) }

-- `void Packet::update_local_buff_info()`. Both pointers are read.
unfoldable pub update_local_buff_info : PacketM (Unit {0})
update_local_buff_info s =
    if not s.has_buff_idx
    then fault
    else ok tt (record s {
      packet = record (s.packet) { buff_pos_start = pos s.buff_idx; buff_next = s.buff_idx };
    })

-- `void Packet::update_buff_idx()`
unfoldable pub update_buff_idx : PacketM (Unit {0})
update_buff_idx s =
    if not s.has_buff_idx
    then fault
    else if ltb_ℤ s.buff_total_len (pos s.buff_next)
    then throw packet_exception (record s { buff_idx = s.buff_next })
    else ok tt (record s { buff_idx = s.buff_next })
