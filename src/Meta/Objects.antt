-- ===== src/Meta/Objects.antt =====
-- What the object-storage scanner reports (meta/backend/internal/scanner/types.go), and the names
-- that it reserves (the first functions of s3_scanner.go).
use addp.Common.{
  ℕ, String, Bool, true, false, not, ◌&&◌, ◌||◌, Option, List, [], ◌∷◌, str_eq, if◌then◌else◌,
}
use addp.Common.Int.{ℤ}
use addp.Text.{is_empty, split, trim_slashes, trim_space}

-- the three values of NodeType that the scanner writes
pub data NodeType : Type 0 where
  bucket prefix object : NodeType

-- `last_modified` is a time, which is only copied
pub record ObjectMetadata : Type 0 where
  pub bucket_name : String
  pub path : String
  pub relative_path : String
  pub node_type : NodeType
  pub file_type : String
  pub size_bytes : ℤ
  pub object_count : ℤ
  pub last_modified : Option ℕ

pub record ObjectNode : Type 0 where
  pub name : String
  pub path : String
  pub node_type : NodeType
  pub size_bytes : ℤ
  pub file_type : String
  pub object_count : ℤ
  pub last_modified : Option ℕ

unfoldable pub is_reserved_segment : String → Bool
is_reserved_segment segment = str_eq segment "__bucket__" || str_eq segment ".minio.sys"

unfoldable pub is_reserved_bucket_name : String → Bool
unfolding trim_space is_reserved_segment
is_reserved_bucket_name name =
    if is_empty (trim_space name) then true else is_reserved_segment (trim_space name)

unfoldable pub contains_reserved : List String → Bool
contains_reserved [] = false
contains_reserved (part ∷ parts) =
    let rest = contains_reserved parts in
    if is_empty part then rest else if is_reserved_segment (trim_space part) then true else rest

unfoldable pub has_reserved : String → Bool
has_reserved path =
    if is_empty (trim_slashes path) then false else contains_reserved (split (trim_slashes path))

-- filterReservedNodes and filterReservedMetadata
unfoldable pub filter_reserved_nodes : List ObjectNode → List ObjectNode
unfolding is_reserved_segment has_reserved
filter_reserved_nodes [] = []
filter_reserved_nodes (node ∷ nodes) =
    let rest = filter_reserved_nodes nodes in
    if is_empty node.name
    then rest
    else if is_reserved_segment node.name
    then rest
    else if has_reserved node.path
    then rest
    else node ∷ rest

abbrev pub is_bucket : NodeType → Bool
is_bucket bucket = true
is_bucket prefix = false
is_bucket object = false

unfoldable pub filter_reserved_metadata : List ObjectMetadata → List ObjectMetadata
unfolding has_reserved
filter_reserved_metadata [] = []
filter_reserved_metadata (m ∷ metas) =
    let rest = filter_reserved_metadata metas in
    if is_bucket m.node_type
    then rest
    else if not (is_empty m.relative_path) && has_reserved m.relative_path
    then rest
    else if has_reserved m.path
    then rest
    else m ∷ rest

abbrev pub is_object_type : NodeType → Bool
is_object_type object = true
is_object_type bucket = false
is_object_type prefix = false
