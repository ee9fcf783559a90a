-- ===== src/Endpoint.antt =====
-- The interface of the two sides of a transfer, from crates/mtpx-core/src/internal/endpoint.rs, and
-- the rest of what a run meets: the cancel token, the clock and the event channel.
use mtpx.Base.{ℕ, Bool, List, Option, Result}
use mtpx.Std.Text.{Str}
use mtpx.Path.RelPath.{RelPath}
use mtpx.Entry.{ModifiedTime}
use mtpx.Mtp.{MtpError}
use mtpx.Error.{Error}

pub record WriteRequest : Type 0 where
  pub path : RelPath
  pub expected_size : ℕ
  pub resume_from : ℕ
  pub modified : Option ModifiedTime

-- A chunk that passed, and whether the event channel had room for its report.
pub record Chunk : Type 0 where
  pub len : ℕ
  pub reported : Bool

-- The two endpoints of a run and its environment. Every call may change the world, also by what
-- others do meanwhile; `write` tells the chunks that it drew from its stream.
pub record Env (Other : Type 0) : Type 1 where
  pub World : Type 0
  pub Stream : Type 0
  pub is_cancelled : World → Bool × World
  pub resume_offset : RelPath → ℕ → World → Result ℕ (Error Other) × World
  pub read : RelPath → ℕ → World → Result Stream (Error Other) × World
  pub write : WriteRequest → Stream → World → Result (Unit {0}) (Error Other) × List Chunk × World
  pub mkdir : RelPath → World → Result (Unit {0}) (Error Other) × World
  pub now : World → ℕ
  pub sleep : ℕ → World → World
  pub is_retryable : MtpError Other → Bool
  pub to_string : Error Other → Str
