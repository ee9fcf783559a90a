-- ===== src/Options.antt =====
-- crates/mtpx-core/src/options.rs
pub data ConflictPolicy : Type 0 where
  fail source_wins skip : ConflictPolicy

pub record TransferOptions : Type 0 where
  pub conflict : ConflictPolicy

abbrev pub pull : TransferOptions
pull = record { conflict = fail }

abbrev pub sync : TransferOptions
sync = record { conflict = source_wins }
