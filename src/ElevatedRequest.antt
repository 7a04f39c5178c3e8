-- ===== src/ElevatedRequest.antt =====
-- The elevated launch request: src/ProxyLaneHook/ElevatedLaunchProtocol.h (header and parser),
-- src/ProxyLane/Page3.cpp (the UI writes the request) and src/ProxyLaneHook/ElevatedLauncher.cpp
-- (the elevated process reads it). The four fields are the UTF-8 bytes that the UI has converted.
pub mod Parse
pub mod Transfer
mod Tests
use proxy_lane.Common.{
  ◌>>=◌, ◌>>◌, ℕ, suc, ◌+◌, ◌-◌, ◌*◌, ◌/◌, ◌%◌, Bool, false, not, ◌&&◌, Option, none, some, List,
  [], ◌∷◌, ◌++◌, leb, ◌==◌, if◌then◌else◌, guard, length, get_or, take, drop,
}
use proxy_lane.Base64Url.{encoded_length, decoded_length, encode, decode}

pub record WireHeader : Type 0 where
  pub magic : ℕ
  pub version : ℕ
  pub header_size : ℕ
  pub total_size : ℕ
  pub target_path_bytes : ℕ
  pub command_line_bytes : ℕ
  pub working_directory_bytes : ℕ
  pub pipe_name_bytes : ℕ
  pub flags : ℕ

-- A pointer into the request is its offset.
pub record RequestView : Type 0 where
  pub target_path : ℕ
  pub target_path_bytes : ℕ
  pub command_line : ℕ
  pub command_line_bytes : ℕ
  pub working_directory : ℕ
  pub working_directory_bytes : ℕ
  pub pipe_name : ℕ
  pub pipe_name_bytes : ℕ

abbrev pub request_magic : ℕ
request_magic = 0x4C45_4C50

abbrev pub request_version : ℕ
request_version = 2

-- `sizeof(ProxyLaneElevatedLaunchWireHeader)`, packed.
abbrev pub header_bytes : ℕ
header_bytes = 32

abbrev pub max_path : ℕ
max_path = 260

abbrev pub max_wire_bytes : ℕ
max_wire_bytes =
    header_bytes + (max_path + 1024 - 1) * 3 + (4096 - 1) * 3 + (max_path - 1) * 3 + (128 - 1)

-- Little-endian words, as `memcpy` moves them.
abbrev le16 : ℕ → List ℕ
le16 n = (n % 256) ∷ (n / 256 % 256) ∷ []

abbrev le32 : ℕ → List ℕ
le32 n = (n % 256) ∷ (n / 256 % 256) ∷ (n / 65536 % 256) ∷ (n / 16777216 % 256) ∷ []

read16 : List ℕ → ℕ → ℕ
read16 bytes i = get_or bytes i 0 + get_or bytes (suc i) 0 * 256

read32 : List ℕ → ℕ → ℕ
unfolding read16
read32 bytes i = read16 bytes i + read16 bytes (suc (suc i)) * 65536

-- `memcpy(&header, data, sizeof(header))`.
pub read_header : List ℕ → WireHeader
read_header bytes = record {
  magic = read32 bytes 0;
  version = read16 bytes 4;
  header_size = read16 bytes 6;
  total_size = read32 bytes 8;
  target_path_bytes = read32 bytes 12;
  command_line_bytes = read32 bytes 16;
  working_directory_bytes = read32 bytes 20;
  pipe_name_bytes = read32 bytes 24;
  flags = read32 bytes 28;
}

-- `memcpy(&wireRequest[0], &header, sizeof(header))`.
pub write_header : WireHeader → List ℕ
write_header h =
    le32 h.magic
    ++ le16 h.version
    ++ le16 h.header_size
    ++ le32 h.total_size
    ++ le32 h.target_path_bytes
    ++ le32 h.command_line_bytes
    ++ le32 h.working_directory_bytes
    ++ le32 h.pipe_name_bytes
    ++ le32 h.flags

-- The tests on the header alone.
good_header : WireHeader → ℕ → Bool
good_header h size =
    h.magic == request_magic
    && h.version == request_version
    && h.header_size == header_bytes
    && h.total_size == size
    && h.flags == 0
    && not (h.target_path_bytes == 0)
    && not (h.command_line_bytes == 0)
    && not (h.pipe_name_bytes == 0)

-- The four uses of PROXYLANE_ASSIGN_WIRE_FIELD and the final test. `offset` never passes the size, so
-- `dataSize - offset` does not wrap.
assign_fields : WireHeader → ℕ → Option RequestView
assign_fields h size = do
  let offset0 = header_bytes
  guard (leb h.target_path_bytes (size - offset0))
  let offset1 = offset0 + h.target_path_bytes
  guard (leb h.command_line_bytes (size - offset1))
  let offset2 = offset1 + h.command_line_bytes
  guard (leb h.working_directory_bytes (size - offset2))
  let offset3 = offset2 + h.working_directory_bytes
  guard (leb h.pipe_name_bytes (size - offset3))
  let offset4 = offset3 + h.pipe_name_bytes
  guard (offset4 == size)
  some (record {
    target_path = offset0;
    target_path_bytes = h.target_path_bytes;
    command_line = offset1;
    command_line_bytes = h.command_line_bytes;
    working_directory = offset2;
    working_directory_bytes = h.working_directory_bytes;
    pipe_name = offset3;
    pipe_name_bytes = h.pipe_name_bytes;
  })

-- The request of `parse` is a non-null pointer. `none` is FALSE.
pub parse : List ℕ → Option RequestView
parse bytes = do
  let size = length bytes
  guard (leb header_bytes size && leb size max_wire_bytes)
  let h = read_header bytes
  guard (good_header h size)
  assign_fields h size

-- What the UI sends. An empty working directory is allowed.
pub record Fields : Type 0 where
  pub target_path : List ℕ
  pub command_line : List ℕ
  pub working_directory : List ℕ
  pub pipe_name : List ℕ

abbrev pub wire_size : Fields → ℕ
wire_size f =
    header_bytes
    + length f.target_path
    + length f.command_line
    + length f.working_directory
    + length f.pipe_name

header_of : Fields → WireHeader
header_of f = record {
  magic = request_magic;
  version = request_version;
  header_size = header_bytes;
  total_size = wire_size f;
  target_path_bytes = length f.target_path;
  command_line_bytes = length f.command_line;
  working_directory_bytes = length f.working_directory;
  pipe_name_bytes = length f.pipe_name;
  flags = 0;
}

-- `none` is APP_LAUNCH_ELEVATED_HELPER_FAILED. The bound is below MAXDWORD.
pub wire_request : Fields → Option (List ℕ)
wire_request f =
    if leb (wire_size f) max_wire_bytes
    then some (
        write_header (header_of f)
        ++ (f.target_path ++ (f.command_line ++ (f.working_directory ++ f.pipe_name))))
    else none

-- The Base64URL text of the request; `encodedBuffer` has room for `encodedLength + 1`.
pub encoded_request : Fields → Option (List ℕ)
encoded_request f = do
  wire ← wire_request f
  let encoded_size = encoded_length (length wire)
  text ← encode false wire false (encoded_size + 1)
  guard (length text == encoded_size)
  some text

field : List ℕ → ℕ → ℕ → List ℕ
field bytes offset count = take count (drop offset bytes)

-- The fields of a request that the parser accepts.
pub read_fields : List ℕ → Option Fields
read_fields bytes = do
  view ← parse bytes
  some (record {
    target_path = field bytes view.target_path view.target_path_bytes;
    command_line = field bytes view.command_line view.command_line_bytes;
    working_directory = field bytes view.working_directory view.working_directory_bytes;
    pipe_name = field bytes view.pipe_name view.pipe_name_bytes;
  })

-- What the elevated process takes from the text behind `--request=`; `none` is
-- PROXYLANE_ELEVATED_INVALID_REQUEST.
pub receive : List ℕ → Option Fields
receive text = do
  capacity ← decoded_length (length text)
  guard (leb header_bytes capacity && leb capacity max_wire_bytes)
  bytes ← decode false text false capacity
  read_fields bytes
