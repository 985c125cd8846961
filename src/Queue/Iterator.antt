-- ===== src/Queue/Iterator.antt =====
-- pkg/queue/iterator.go and iterator-options.go: the construction of the iterator and its signal to
-- resume. The channel `resume` is the number of signals in it; it holds two.
use Prim.Native.String.{◌++◌}
use kombiner.Prelude.{
  ℕ, ◌+◌, String, List, [], ◌∷◌, none, some, ltb, if◌then◌else◌, Outcome, value, ◌>>=◌,
}
use kombiner.Queue.Store.{Store}
use kombiner.Queue.Config.{QueueConfigs, add_push_handler, validate}

-- The reader factories of this package.
pub data ReaderFactory : Type 0 where
  new_round_robin_reader : ReaderFactory
  new_uniform_reader : ReaderFactory

pub record QueueIterator : Type 0 where
  pub reader_factory : ReaderFactory
  pub configs : QueueConfigs

-- What a constructor returns: a value or an error.
pub data Created (A : Type 0) : Type 0 where
  created : A → Created A
  refused : String → Created A

-- A full channel is left as it is.
unfoldable pub resume : ℕ → ℕ
resume signals = if ltb signals 2 then signals + 1 else signals

abbrev pub QueueIteratorOption : Type 0
QueueIteratorOption = QueueIterator → QueueIterator

unfoldable pub with_reader_factory : ReaderFactory → QueueIteratorOption
with_reader_factory factory it = record it { reader_factory = factory }

unfoldable pub apply_options : List QueueIteratorOption → QueueIterator → QueueIterator
apply_options [] it = it
apply_options (opt ∷ opts) it = apply_options opts (opt it)

module _ (quote : String → String) where
  unfoldable pub new_queue_iterator :
      Store ℕ → QueueConfigs → List QueueIteratorOption → Outcome (Created QueueIterator × Store ℕ)
  unfolding apply_options
  new_queue_iterator st configs opts = elim (validate quote configs) [
    | some err ↦ value (refused ("invalid queue configuration: " ++ err), st)
    | none ↦ do
      st' ← add_push_handler st configs resume
      let it : QueueIterator = record { reader_factory = new_uniform_reader; configs = configs }
      value (created (apply_options opts it), st')
  ]
