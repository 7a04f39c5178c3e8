-- ===== src/ElevatedRequest/Transfer.antt =====
-- The request goes from the UI (src/ProxyLane/Page3.cpp) to the elevated process
-- (src/ProxyLaneHook/ElevatedLauncher.cpp) unchanged.
use proxy_lane.Base64Url.RoundTrip.{decode-encode, decoded_length-encoded_length}
use proxy_lane.Common.{
  append-nil, [], false, All-append, IsByte, All, ◌≤◌, length-append, true, drop-add, some,
  take-append_left, drop-append_left, take, ℕ, ◌+◌, ◌<◌, ◌≡◌, refl, List, ◌++◌, arith, length, drop,
  IsDword,
}
use proxy_lane.ElevatedRequest.{
  encoded_length, encode, field, max_wire_bytes, wire_request, encoded_request, read_fields,
  receive, RequestView, wire_size, Fields, assign_fields, good_header, header_of, parse, WireHeader,
  read_header, read32, write_header, header_bytes,
}

record Fits (h : WireHeader) : Type 0 where
  version : h.version < 65536
  header_size : h.header_size < 65536
  magic : IsDword h.magic
  total_size : IsDword h.total_size
  target : IsDword h.target_path_bytes
  command : IsDword h.command_line_bytes
  directory : IsDword h.working_directory_bytes
  pipe : IsDword h.pipe_name_bytes
  flags : IsDword h.flags

read_header-write_header :
    (h : WireHeader) (rest : List ℕ) → Fits h → read_header (write_header h ++ rest) ≡ h
unfolding read_header write_header read32
read_header-write_header h rest fits = ground arith

drop-write_header :
    (h : WireHeader) (rest : List ℕ) → drop header_bytes (write_header h ++ rest) ≡ rest
unfolding write_header
drop-write_header h rest = refl

length-write_header :
    (h : WireHeader) (rest : List ℕ) → length (write_header h ++ rest) ≡ header_bytes + length rest
unfolding write_header
length-write_header h rest = omega arith

IsRequest : Fields → Type 0
IsRequest f =
    (0 < length f.target_path)
    × (0 < length f.command_line)
    × (0 < length f.pipe_name)
    × (wire_size f ≤ max_wire_bytes)

-- The four fields behind the header.
abbrev body : Fields → List ℕ
body f = f.target_path ++ (f.command_line ++ (f.working_directory ++ f.pipe_name))

length-body : (f : Fields) → header_bytes + length (body f) ≡ wire_size f
length-body f = omega (
  arith,
  length-append f.target_path (f.command_line ++ (f.working_directory ++ f.pipe_name)),
  length-append f.command_line (f.working_directory ++ f.pipe_name),
  length-append f.working_directory f.pipe_name,
)

view_of : Fields → RequestView
view_of f = record {
  target_path = header_bytes;
  target_path_bytes = length f.target_path;
  command_line = header_bytes + length f.target_path;
  command_line_bytes = length f.command_line;
  working_directory = header_bytes + length f.target_path + length f.command_line;
  working_directory_bytes = length f.working_directory;
  pipe_name =
      header_bytes + length f.target_path + length f.command_line + length f.working_directory;
  pipe_name_bytes = length f.pipe_name;
}

header_of-Fits : (f : Fields) → wire_size f ≤ max_wire_bytes → Fits (header_of f)
unfolding header_of
header_of-Fits f h = ground arith

assign_fields-header_of :
    (f : Fields) → assign_fields (header_of f) (wire_size f) ≡ some (view_of f)
unfolding assign_fields header_of view_of
assign_fields-header_of f = ground arith

good_header-header_of : (f : Fields) → IsRequest f → good_header (header_of f) (wire_size f) ≡ true
unfolding good_header header_of IsRequest
good_header-header_of f h = ground arith

parse_wire :
    (f : Fields) → IsRequest f → parse (write_header (header_of f) ++ body f) ≡ some (view_of f)
unfolding parse IsRequest
parse_wire f h =
    rw
      (
        length-write_header (header_of f) (body f),
        length-body f,
        read_header-write_header (header_of f) (body f) (header_of-Fits f (ground arith)),
        good_header-header_of f h,
        assign_fields-header_of f,
      )
      (ground arith)

take-append : (xs ys : List ℕ) → take (length xs) (xs ++ ys) ≡ xs
take-append xs ys = take-append_left (length xs) xs ys refl

drop-append : (xs ys : List ℕ) → drop (length xs) (xs ++ ys) ≡ ys
drop-append xs ys = drop-append_left (length xs) xs ys refl

-- Each field is read back where the view says.
module _ (h : WireHeader) (f : Fields) where
  wire : List ℕ
  wire = write_header h ++ body f

  drop_target : drop header_bytes wire ≡ body f
  unfolding wire
  drop_target = drop-write_header h (body f)

  drop_command :
      drop (header_bytes + length f.target_path) wire
      ≡ f.command_line ++ (f.working_directory ++ f.pipe_name)
  drop_command =
      rw (drop-add header_bytes (length f.target_path) wire, drop_target)
        (drop-append f.target_path (f.command_line ++ (f.working_directory ++ f.pipe_name)))

  drop_directory :
      drop (header_bytes + length f.target_path + length f.command_line) wire
      ≡ f.working_directory ++ f.pipe_name
  drop_directory =
      rw (drop-add (header_bytes + length f.target_path) (length f.command_line) wire, drop_command)
        (drop-append f.command_line (f.working_directory ++ f.pipe_name))

  drop_pipe :
      drop
        (header_bytes + length f.target_path + length f.command_line + length f.working_directory)
        wire
      ≡ f.pipe_name
  drop_pipe =
      rw
        (
          drop-add (header_bytes + length f.target_path + length f.command_line)
              (length f.working_directory) wire,
          drop_directory,
        )
        (drop-append f.working_directory f.pipe_name)

write_header-IsByte : (h : WireHeader) → All IsByte (write_header h)
unfolding write_header
write_header-IsByte h = omega arith

abbrev pub AreBytes : Fields → Type 0
AreBytes f =
    All IsByte f.target_path
    × All IsByte f.command_line
    × All IsByte f.working_directory
    × All IsByte f.pipe_name

wire-IsByte : (h : WireHeader) (f : Fields) → AreBytes f → All IsByte (write_header h ++ body f)
wire-IsByte h f (t, c, d, p) = All-append IsByte (write_header h) (body f) (write_header-IsByte h) (
    All-append IsByte f.target_path _ t
      (All-append IsByte f.command_line _ c (All-append IsByte f.working_directory _ d p)))

encoded_request_ok :
    (f : Fields) (text : List ℕ)
    → encoded_request f ≡ some text
    → (wire_size f ≤ max_wire_bytes)
      × (encode false
            (wire (header_of f) f)
            false
            (encoded_length (length (wire (header_of f) f)) + 1)
          ≡ some text)
      × (length text ≡ encoded_length (length (wire (header_of f) f)))
unfolding encoded_request wire_request wire
encoded_request_ok f text h = ground arith

length-wire : (f : Fields) → length (wire (header_of f) f) ≡ wire_size f
unfolding wire
length-wire f = rw (length-write_header (header_of f) (body f), length-body f)

parse-wire_shut : (f : Fields) → IsRequest f → parse (wire (header_of f) f) ≡ some (view_of f)
unfolding wire
parse-wire_shut f h = parse_wire f h

take_pipe : (f : Fields) → take (length f.pipe_name) f.pipe_name ≡ f.pipe_name
take_pipe f = let whole = take-append f.pipe_name [] in rw append-nil at whole

read_fields-wire : (f : Fields) → IsRequest f → read_fields (wire (header_of f) f) ≡ some f
unfolding read_fields field view_of
read_fields-wire f h =
    rw
      (
        parse-wire_shut f h,
        drop_target (header_of f) f,
        drop_command (header_of f) f,
        drop_directory (header_of f) f,
        drop_pipe (header_of f) f,
        take-append f.target_path,
        take-append f.command_line,
        take-append f.working_directory,
        take_pipe f,
      )
      refl

wire_bytes : (f : Fields) → AreBytes f → All IsByte (wire (header_of f) f)
unfolding wire
wire_bytes f h = wire-IsByte (header_of f) f h

room : (f : Fields) → length (wire (header_of f) f) ≤ wire_size f
room f = omega (arith, length-wire f)

request :
    (f : Fields)
    → wire_size f ≤ max_wire_bytes
    → 0 < length f.target_path
    → 0 < length f.command_line
    → 0 < length f.pipe_name
    → IsRequest f
unfolding IsRequest
request f s t c p = (t, c, p, s)

-- A request that the UI could encode, with a target, a command line and a pipe name, is read by the
-- elevated process as the same four byte strings.
pub receive-encoded_request :
    (f : Fields) (text : List ℕ)
    → AreBytes f
    → 0 < length f.target_path
    → 0 < length f.command_line
    → 0 < length f.pipe_name
    → encoded_request f ≡ some text
    → receive text ≡ some f
unfolding receive
receive-encoded_request f text bytes t c p h =
    let (size, sent, count) = encoded_request_ok f text h in
    rw
      (
        count,
        decoded_length-encoded_length (length (wire (header_of f) f)),
        length-wire f,
        decode-encode (wire (header_of f) f) _ (wire_size f) (wire_bytes f bytes) sent (room f),
      )
      (ground (arith, read_fields-wire f (request f size t c p)))
