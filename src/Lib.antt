-- ===== src/Lib.antt =====
-- snakefish: threads, generators and a parallel map for Python that run in forked processes, with the
-- programs that use them.
--
-- The parts and their files:
-- - Channel (src/channel.h, src/channel.cpp): a ring of bytes in shared memory. `Channel` is the class's
--   members, `send_bytes` and `receive_bytes` its operations, each a function from the channel to a
--   result and the channel after. Copies are `memcpy` on a list of the bytes that were asked for, and an
--   access past them is the result `undefined`. The two semaphores are their counts, an operation on them that would
--   block is the result `blocked`. Below it: Channel/Bytes (memory and `size_t`), Channel/Rotation and
--   Channel/Copies (copies that go round), Channel/Queue (the messages that a ring holds),
--   Channel/Send, Channel/Receive, Channel/Refuse, Channel/Clobber, Channel/Start, and
--   Channel/Objects (`send_pyobj` and `receive_pyobj` with pickle as a parameter). Channel/Concurrent has the calls
--   of many processes under way at once, as steps between the uses of the semaphores: Channel/Concurrent/Stages
--   compares the stages of a call with the operation, Channel/Concurrent/Exclusion is the lock,
--   Channel/Concurrent/Messages and Channel/Concurrent/Progress are about the states that can be reached.
-- - Thread (src/thread.h, src/thread.cpp): the class `thread`. Its channel is a queue of objects; what
--   `fork` and `waitpid` answer is an argument. Thread/Lifecycle follows a thread from start to result, Thread/Race the flag
--   `alive` that both processes write.
-- - Job and Misc (src/misc.cpp): `map` and `starmap` on threads. Misc/Correct and Misc/Total compare them
--   with the sequential map.
-- - Wrappers (examples/multiprocessing/wrappers.py): the same interface over the standard library's
--   multiprocessing. Wrappers/Thread is the class `Thread`, Wrappers/Map are `map` and `starmap`, and
--   Wrappers/Generator is the class `Generator`, with Wrappers/Generator/Draw for a loop over one.
-- - Generator (src/generator.h, src/generator.cpp): the class `generator`. Its two channels are queues, and the
--   child's loop is a function of one round. Generator/Protocol interleaves the parent's calls of
--   `next` with the rounds of the child, Generator/Ending stops and joins.
-- - Resources (the constructors and `dispose` of src/channel.cpp, src/thread.cpp and src/generator.cpp): what
--   they take from the system and give back, by their calls of mmap, munmap, sem_init and sem_destroy.
-- - Exchange (examples/channel.py and examples/timestamp.py, also of examples/multiprocessing): two senders and a
--   receiver that share a channel, as a step relation. Exchange/Order and Exchange/Progress are about
--   every order of the steps, Exchange/Objects and Exchange/Timestamps about the two programs.
-- - Examples (the other programs of examples/ and examples/multiprocessing): Examples/ForkJoin (fork_join.py),
--   Examples/TryJoin (fork_tryjoin.py), Examples/Raising (thread_exception.py), Examples/Map (map.py)
--   and Examples/Generators (generator.py, generator_exception.py), from the operations of Thread, Misc,
--   Generator and Wrappers. A program's loop that asks again and again is given how often it asks in
--   vain.
-- - Bench: the maps that the programs of benchmark/ call. `Mapper` is a map by its outcomes, `IsMap` the law that
--   it gives the results of the calls in order; Bench/Maps are the maps of Misc and Wrappers in this
--   form. `multiprocessing.Pool` is third-party code, a parameter with the law as a hypothesis.
-- - BinaryTree, Spectralnorm, Regexredux, Knucleotide (benchmark/sequential/*.py of those names): the programs
--   over any such map. Their modules Forked, Process and Pooled are the variants of benchmark/snakefish,
--   benchmark/multiprocessing and benchmark/benchmarksgame. What a variant has in common with the sequential program
--   is a copy of it in the repository, and the same definition here. Knucleotide/Count and
--   Knucleotide/Count/Frames are `count_frequencies`, Knucleotide/Program is `display` and `main`.
-- - Mandelbrot (benchmark/sequential/mandelbrot.py): the bytes of a row in Mandelbrot/Rows, the order of the rows in
--   Mandelbrot/Ordering. Mandelbrot/Loop is the loop of benchmark/snakefish and benchmark/multiprocessing that polls
--   generators, over an interface that Mandelbrot/Forked fills with the class of Generator and Mandelbrot/Process with
--   that of Wrappers; which polls find an answer is a list. Mandelbrot/Served shows that both obey the interface's law,
--   Mandelbrot/Polling and Mandelbrot/Parts are about the loop and its jobs, on Mandelbrot/Totals, and Mandelbrot/Equal
--   compares the programs. Mandelbrot/Pooled is the variant of benchmark/benchmarksgame.
-- - Prelude: lists over the native numbers, tests, and results that may raise.
--
-- Python objects are a type parameter with a test for exceptions, or lists of results. The functions of a
-- user take and return the globals of the process that they run in. Sizes are `size_t` and `uint`
-- with their wrap-around written out; Python's integers have no bound. Floats are a parameter with
-- their operations, regular expressions a parameter with what `re` does. Printed lines keep the numbers
-- and names that are printed, files are arguments.
--
-- What code outside of the repository answers where nothing can be said of it is the result `unspecified`: pybind11
-- given the empty object that `get_result` prints of a second exception, and the float quotients of
-- wrappers.py from 2^53 arguments on. A pipe of wrappers.py takes what a test says that fits; in map.py of
-- examples/multiprocessing and in the benchmarks everything is taken to fit.
--
-- The loops of `map` count batches, and that there are enough of them is part of its theorem. The
-- searches in byte strings of Knucleotide run on the number of bytes left, and each round passes one
-- byte or more. The loop of examples/generator_exception.py runs on a number of rounds, and three are
-- enough for it. `ordered_rows` of Mandelbrot runs on 2 n + 1 rounds, since a round reads a row or yields one once
-- all are read; its theorem says that they are enough. The loops over part lists there count the jobs, and a poll
-- uses up one answer of its list. No other loop has fuel.
--
-- Not modelled: `malloc`, the bytes that `mmap` maps behind those asked for, failures of the semaphores' own
-- calls but those of Resources, exceptions raised by `extract` and `merge`, pickling, the text of printed lines, sleeping and measured times, the
-- programs fannkuch and fasta of benchmark/, and the scripts that run and compare them.
pub mod Bench
pub mod BinaryTree
pub mod Channel
pub mod Examples
pub mod Exchange
pub mod Generator
pub mod Job
pub mod Knucleotide
pub mod Mandelbrot
pub mod Misc
pub mod Prelude
pub mod Regexredux
pub mod Resources
pub mod Spectralnorm
pub mod Thread
pub mod Wrappers
