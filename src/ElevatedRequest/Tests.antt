-- ===== src/ElevatedRequest/Tests.antt =====
-- A request with fields of one or two bytes, there and back.
use proxy_lane.Common.{ℕ, ◌≡◌, refl, some, List, [], ◌∷◌, arith}
use proxy_lane.Base64Url as Base64Url
use proxy_lane.ElevatedRequest.{
  RequestView, Fields, encoded_request, parse, receive, wire_request, read16, read32, read_header,
  write_header, good_header, assign_fields, header_of,
}
use proxy_lane.ElevatedRequest.Transfer.{receive-encoded_request}

abbrev small : Fields
small = record {
  target_path = 97 ∷ [];
  command_line = 98 ∷ 99 ∷ [];
  working_directory = [];
  pipe_name = 112 ∷ [];
}

-- The 32 bytes of the header and the four fields.
abbrev small_wire : List ℕ
small_wire =
    80 ∷ 76 ∷ 69 ∷ 76 ∷ 2 ∷ 0 ∷ 32 ∷ 0 ∷ 36 ∷ 0 ∷ 0 ∷ 0 ∷ 1 ∷ 0 ∷ 0 ∷ 0 ∷ 2 ∷ 0 ∷ 0 ∷ 0 ∷ 0 ∷ 0 ∷ 0
    ∷ 0 ∷ 1 ∷ 0 ∷ 0 ∷ 0 ∷ 0 ∷ 0 ∷ 0 ∷ 0 ∷ 97 ∷ 98 ∷ 99 ∷ 112 ∷ []

abbrev small_text : List ℕ
small_text =
    85 ∷ 69 ∷ 120 ∷ 70 ∷ 84 ∷ 65 ∷ 73 ∷ 65 ∷ 73 ∷ 65 ∷ 65 ∷ 107 ∷ 65 ∷ 65 ∷ 65 ∷ 65 ∷ 65 ∷ 81 ∷ 65
    ∷ 65 ∷ 65 ∷ 65 ∷ 73 ∷ 65 ∷ 65 ∷ 65 ∷ 65 ∷ 65 ∷ 65 ∷ 65 ∷ 65 ∷ 65 ∷ 65 ∷ 81 ∷ 65 ∷ 65 ∷ 65 ∷ 65
    ∷ 65 ∷ 65 ∷ 65 ∷ 65 ∷ 66 ∷ 104 ∷ 89 ∷ 109 ∷ 78 ∷ 119 ∷ []

wire_small : wire_request small ≡ some small_wire
unfolding wire_request write_header header_of
wire_small = refl

encode_small : encoded_request small ≡ some small_text
unfolding encoded_request wire_request write_header header_of Base64Url.encode
    Base64Url.encode_bytes Base64Url.encoded_length Base64Url.digit
encode_small = refl

parse_small :
    parse small_wire
    ≡ some (record {
      target_path = 32;
      target_path_bytes = 1;
      command_line = 33;
      command_line_bytes = 2;
      working_directory = 35;
      working_directory_bytes = 0;
      pipe_name = 35;
      pipe_name_bytes = 1;
    })
unfolding parse assign_fields good_header read_header read16 read32
parse_small = refl

receive-encoded_request_example : receive small_text ≡ some small
receive-encoded_request_example =
    receive-encoded_request small small_text (ground arith) (omega arith) (omega arith)
      (omega arith) encode_small

abbrev small_view : RequestView
small_view = record {
  target_path = 32;
  target_path_bytes = 1;
  command_line = 33;
  command_line_bytes = 2;
  working_directory = 35;
  working_directory_bytes = 0;
  pipe_name = 35;
  pipe_name_bytes = 1;
}
