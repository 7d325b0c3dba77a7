-- ===== src/LocalNode/Request/Answers.antt =====
-- What the responses of a local node (local_node.c) say of its requests.
use round.Common.{Option, ℕ, none, some, List}
use round.Text.{CString}
use round.Method.{Method}
use round.JsonRpc.{JsonLibrary}

module _ {J : Type 0} (json : JsonLibrary J) (hash : CString → ℕ) where
  abbrev shown : Option CString → CString
  shown none = none
  shown (some c) = c
