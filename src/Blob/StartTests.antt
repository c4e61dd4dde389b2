-- ===== src/Blob/StartTests.antt =====
-- The executor with the capacities that the program starts it with.
use hoarder.Base.{refl, arith}
use hoarder.Blob.Executor.Construct.{Granted}
use hoarder.Blob.ExecutorTests.{answers}

abbrev pub granted : Granted answers 1 100 100
granted = record {
  tcp = record {
    slots = 8;
    generations = 16;
    free_list = 24;
    granted = refl;
    some_left = omega arith;
    small = omega arith;
    fits = record { element = omega arith; nonempty = omega arith; fits = omega arith };
  };
  conn = record {
    slots = 8;
    generations = 16;
    free_list = 24;
    granted = refl;
    some_left = omega arith;
    small = omega arith;
    fits = record { element = omega arith; nonempty = omega arith; fits = omega arith };
  };
  block = 8192;
  table = 16;
  free_list = 24;
  bufs = refl;
  aligned = omega arith;
  buffered = omega arith;
  buffers_fit = omega arith;
  word = omega arith;
  ptr_0 = 64;
  ptr_1 = 64;
  queue_0 = refl;
  queue_1 = refl;
  queues_fit = record { element = omega arith; nonempty = omega arith; fits = omega arith };
}
