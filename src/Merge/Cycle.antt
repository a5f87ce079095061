-- ===== src/Merge/Cycle.antt =====
-- The main loop of src/bin/merge_idx.rs, over the records in the order in which they leave the heap:
-- `Event` is a record with its time and the source that it comes from. What `writer.append` is given is
-- the list `written`, oldest first. `E` is `ProviderEntry`, `H` the type of headers, `F` of f64 values.
pub mod Boundary
pub mod Once
use series_factory.Prelude.{
  ℕ, zero, suc, ◌+◌, ◌-◌, Bool, true, false, Option, none, some, List, [], ◌∷◌, ◌++◌, leb, ltb,
  if◌then◌else◌, bit_or,
}
use series_factory.Mitch.{Index, IndexRecord, Wire}

pub record Event (F : Type 0) : Type 0 where
  pub ts_ms : ℕ
  pub source_idx : ℕ
  pub index : Index F

-- `ProviderEntry` and `compute_vwap_at` of `nxr_sdk`; an instant is the milliseconds since the first
-- record. `compute_vwap_at` has the ticker, the staleness and the kernel of the run. `same_f64` is `==`.
pub record Vwap (E F : Type 0) : Type 0 where
  -- sources[i].base_weight
  pub base_weight : ℕ → F
  pub new_at : Index F → F → ℕ → E
  pub update_at : E → Index F → ℕ → E
  pub compute_vwap_at : List (Option E) → ℕ → Option (Index F)
  pub same_f64 : F → F → Bool

pub record Loop (E H F : Type 0) : Type 0 where
  pub slots : List (Option E)
  pub next_cycle_ms : ℕ
  pub dirty : Bool
  pub written : List (ℕ × IndexRecord H F)

module _ {E H F : Type 0} (w : Wire H) (vwap : Vwap E F) (cycle_ms anchor_ms : ℕ) where
  -- (ms - anchor_ms).max(0)
  abbrev pub sim_now : ℕ → ℕ
  sim_now ms = ms - anchor_ms

  abbrev pub update_slot : Event F → Option E → Option E
  update_slot e none = some (vwap.new_at e.index (vwap.base_weight e.source_idx) (sim_now e.ts_ms))
  update_slot e (some entry) = some (vwap.update_at entry e.index (sim_now e.ts_ms))

  abbrev set_slot : ℕ → Event F → List (Option E) → List (Option E)
  set_slot i e [] = []
  set_slot zero e (s ∷ slots) = update_slot e s ∷ slots
  set_slot (suc i) e (s ∷ slots) = s ∷ set_slot i e slots

  unfoldable pub merge_slot : Event F → List (Option E) → List (Option E)
  merge_slot e slots = set_slot e.source_idx e slots

  abbrev pub composite_record : ℕ → Index F → IndexRecord H F
  composite_record boundary idx =
      let flags = bit_or idx.flags w.flag_historical_backfill in
      record {
        header = w.header_new w.type_index 0 (w.from_epoch_ms boundary) 1;
        index = record idx {
          flags = if vwap.same_f64 idx.bid idx.ask then bit_or flags w.flag_no_book else flags;
        };
      }

  abbrev record_at : ℕ → Option (Index F) → List (ℕ × IndexRecord H F)
  record_at boundary none = []
  record_at boundary (some idx) = (boundary, composite_record boundary idx) ∷ []

  -- What is written for the slots at a boundary: at most one composite.
  unfoldable pub emit : ℕ → List (Option E) → List (ℕ × IndexRecord H F)
  emit boundary slots = record_at boundary (vwap.compute_vwap_at slots (sim_now boundary))

  abbrev pub flush : Loop E H F → Loop E H F
  flush s = record s {
    dirty = false;
    written = if s.dirty then s.written ++ emit s.next_cycle_ms s.slots else s.written;
  }

  -- while ts_ms >= next_cycle_ms
  abbrev pub catch_up : ℕ → ℕ → Loop E H F → Loop E H F
  catch_up zero ts_ms s = s
  catch_up (suc fuel) ts_ms s =
      let rest =
        catch_up fuel ts_ms (record (flush s) { next_cycle_ms = s.next_cycle_ms + cycle_ms }) in
      if leb s.next_cycle_ms ts_ms then rest else s

  -- Each round moves the boundary by a cycle of at least 1 ms, so these rounds are enough.
  abbrev pub step : Event F → Loop E H F → Loop E H F
  step e s =
      let s' = catch_up (suc e.ts_ms - s.next_cycle_ms) e.ts_ms s in
      record s' { slots = merge_slot e s'.slots; dirty = true }

  abbrev pub merge_events : List (Event F) → Loop E H F → Loop E H F
  merge_events [] s = s
  merge_events (e ∷ es) s = merge_events es (step e s)

  -- The first record sets the first boundary. The last flush is at the boundary behind the last record.
  unfoldable pub merge : List (Option E) → List (Event F) → List (ℕ × IndexRecord H F)
  merge slots [] = []
  merge slots (e ∷ es) =
      (flush (
        merge_events (e ∷ es) (record {
          slots = slots;
          next_cycle_ms = e.ts_ms + cycle_ms;
          dirty = false;
          written = [];
        }))).written
