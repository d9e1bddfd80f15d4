-- ===== src/Mesh/Log.antt =====
-- The event log of mesh/store.ts: a file of bytes, one line of JSON for each event, with the files of the
-- last sequence and of the generation. A call that holds the lock is one step. What JSON makes of an
-- event and of a line is a parameter.
pub mod Reading
pub mod Events
pub mod Lines
pub mod Compaction
pub mod Publishing
pub mod Cuts
pub mod Rising
pub mod Order
pub mod Recovery
pub mod Seen
pub mod Lost
mod Tests
use ultra_fabric.Prelude.{ℕ, String, Bool, true, false, Option, none, some, ◌==◌, string_equality}
use ultra_fabric.Mesh.State.{Identity}
use ultra_fabric.LogTail.{Bytes}

pub record MeshEvent (D : Type 0) : Type 0 where
  pub id : String
  pub sequence : ℕ
  pub topic : String
  pub kind : String
  pub from : Identity
  pub to : Option String
  pub text : Option String
  pub payload : Option D
  pub created_at : ℕ

-- `JSON.stringify` of an event, of an identity and of the data, the event of a line that is an object
-- with a numeric sequence, and `trim` of the text of some bytes.
pub record Format (D : Type 0) : Type 0 where
  pub line_of : MeshEvent D → Bytes
  pub identity_text : Identity → String
  pub payload_text : D → String
  pub parse : Bytes → Option (MeshEvent D)
  pub trim_bytes : Bytes → Bytes

pub record Filter : Type 0 where
  pub topic : Option String
  pub to : Option String

abbrev pub allows : Option String → Option String → Bool
allows none found = true
allows (some wanted) none = false
allows (some wanted) (some found) = wanted == found

-- The files of the log. One that is not there is read like one that is empty, and a counter or a
-- generation that cannot be read is 0.
pub record LogFiles : Type 0 where
  pub events : Bytes
  pub counter : ℕ
  pub generation : ℕ
