-- ===== src/ElevatedRequest/Parse.antt =====
-- What the parser of src/ProxyLaneHook/ElevatedLaunchProtocol.h accepts.
use proxy_lane.Common.{ℕ, ◌+◌, ◌≤◌, ◌<◌, ◌≡◌, some, List, arith, length}
use proxy_lane.ElevatedRequest.{
  RequestView, parse, assign_fields, good_header, header_bytes, max_wire_bytes,
}

-- The fields of an accepted request lie one after the other behind the header and fill the request
-- to its last byte, which bounds every later read; only the working directory may be empty.
parse_layout :
    (bytes : List ℕ) (v : RequestView)
    → parse bytes ≡ some v
    → (v.target_path ≡ header_bytes)
      × (v.command_line ≡ v.target_path + v.target_path_bytes)
      × (v.working_directory ≡ v.command_line + v.command_line_bytes)
      × (v.pipe_name ≡ v.working_directory + v.working_directory_bytes)
      × (length bytes ≡ v.pipe_name + v.pipe_name_bytes)
      × (length bytes ≤ max_wire_bytes)
      × (0 < v.target_path_bytes)
      × (0 < v.command_line_bytes)
      × (0 < v.pipe_name_bytes)
unfolding parse assign_fields good_header
parse_layout bytes v h = ground arith
