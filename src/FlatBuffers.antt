-- ===== src/FlatBuffers.antt =====
-- Strings and vectors of a FlatBuffers table, which are null where the table has no such field.
use yo_authorize.Prelude.{Bytes, Bool, true, [], Option, none, some, empty}

-- `!field || field->empty()`
abbrev pub missing : Option Bytes → Bool
missing none = true
missing (some s) = empty s

-- `field ? field->str() : ""`
abbrev pub str : Option Bytes → Bytes
str none = []
str (some s) = s
