-- ===== src/Ram/Cells.antt =====
-- The abstract view of a log object: at each position a cell that is written once.
use zlog.Base.{
  ℕ, ◌≡◌, Bool, true, false, ◌||◌, Option, none, some, [], Text, Outcome, ok, err, enodata, erange,
  erofs, leb, ◌==◌, if◌then◌else◌, arith,
}
use zlog.Base.Assoc.{find, find-insert, number_key}
use zlog.Ram.{
  LogEntry, LogObject, hole, in_trim_range, read_log, add_entry, write_log, fill_log, trim_entry,
  trim_log,
}

pub data Cell : Type 0 where
  unwritten : Cell
  written : Text → Cell
  invalid : Cell

abbrev pub entry_cell : Option LogEntry → Cell
entry_cell none = unwritten
entry_cell (some entry) =
    if entry.trimmed || entry.invalidated then invalid else written entry.content

unfoldable pub cell : LogObject → ℕ → Cell
unfolding in_trim_range find
cell o p = if in_trim_range o p then invalid else entry_cell (find p o.entries)

-- The specification of each operation at its own cell.
abbrev pub read_cell : Cell → Outcome Text
read_cell unwritten = err erange
read_cell (written content) = ok content
read_cell invalid = err enodata

abbrev pub write_cell : Text → Cell → Outcome (Unit {0}) × Cell
write_cell content unwritten = (ok tt, written content)
write_cell content c = (err erofs, c)

abbrev pub fill_cell : Cell → Outcome (Unit {0}) × Cell
fill_cell (written content) = (err erofs, written content)
fill_cell c = (ok tt, invalid)

pub read_log-cell : (o : LogObject) (p : ℕ) → read_log o p ≡ read_cell (cell o p)
unfolding read_log cell
read_log-cell o p = ground arith

module _ (o : LogObject) (p q : ℕ) where
  cell-add_entry :
      (e : LogEntry)
      → cell (add_entry o p e) q ≡ (
          if in_trim_range o q
          then invalid
          else if p == q
          then entry_cell (some e)
          else entry_cell (find q o.entries))
  unfolding cell add_entry
  cell-add_entry e = ground (arith, find-insert p q e o.entries)

  pub write_log-cell :
      (blackhole : Bool) (content : Text)
      → ((write_log blackhole o content p).0 ≡ (write_cell content (cell o p)).0)
        × (cell (write_log blackhole o content p).1 q ≡ (
            if p == q
            then (write_cell (if blackhole then [] else content) (cell o p)).1
            else cell o q))
  unfolding write_log cell add_entry
  write_log-cell blackhole content =
      ground (arith, find-insert p q (new blackhole content) o.entries)
    where
      new : Bool → Text → LogEntry
      new hole text = record {
        trimmed = false;
        invalidated = false;
        content = if hole then [] else text;
      }

  pub fill_log-cell :
      ((fill_log o p).0 ≡ (fill_cell (cell o p)).0)
      × (cell (fill_log o p).1 q ≡ (if p == q then (fill_cell (cell o p)).1 else cell o q))
  unfolding fill_log cell add_entry
  fill_log-cell = ground (arith, find-insert p q hole o.entries)

  trim_entry-cell :
      (r : Option LogEntry)
      → ((trim_entry o p r).0 ≡ ok tt)
        × (cell (trim_entry o p r).1 q ≡ (
            if in_trim_range o q
            then invalid
            else if p == q
            then invalid
            else entry_cell (find q o.entries)))
  unfolding trim_entry cell
  trim_entry-cell none = ground (arith, find-insert p q hole o.entries)
  trim_entry-cell (some entry) =
      ground (arith, find-insert p q (record entry { trimmed = true; content = [] }) o.entries)

  -- A single position is trimmed.
  pub trim_log-cell :
      ((trim_log o p false false).0 ≡ ok tt)
      × (cell (trim_log o p false false).1 q ≡ (if p == q then invalid else cell o q))
  unfolding trim_log cell in_trim_range
  trim_log-cell = ground (arith, trim_entry-cell (find p o.entries))

  -- A trim limit makes the positions up to it invalid, and leaves the others.
  pub limit_log_cell :
      ((trim_log o p true false).0 ≡ ok tt)
      × (cell (trim_log o p true false).1 q ≡ (if leb q p then invalid else cell o q))
  unfolding trim_log cell
  limit_log_cell = ground arith

  -- A full trim keeps nothing above the limit either.
  pub full_log_cell :
      ((trim_log o p true true).0 ≡ ok tt)
      × (cell (trim_log o p true true).1 q
          ≡ (if leb q p then invalid else if in_trim_range o q then invalid else unwritten))
  unfolding trim_log cell
  full_log_cell = ground arith
