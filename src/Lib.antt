-- ===== src/Lib.antt =====
-- A verification library for the C programs of the repository: a 16-bit machine's simulator
-- (bare-metal-16bit), a threading library (threading-lib) and a shell (unix-shell-from-scratch).
--
-- The simulator. bare-metal-16bit/runsim.c loads a file into memory and calls `emulate` of
-- bare-metal-16bit/emulate.c once a round until it returns 1 or its check of PC fails.
--   Cpu              struct cpu of lab1.h with the standard streams, and the commands from which
--                    emulate.c is written. A command returns `ok` with a value and a state, or a
--                    fault where C leaves the behaviour undefined: an index outside `memory` (64K
--                    cells, as runsim.c allocates) or `R` (8 registers), or a shift of an `int` by
--                    32 or more. An assignment to a uint8_t or uint16_t field converts the value.
--   Emulator         emulate.c, one function for each branch (Fields, Data, Alu, Control, Step). Isa
--                    is an instruction set of its own: instructions as data, their format and their
--                    meaning.
--   Runsim           the initial state and the main loop of runsim.c, by rounds.
--   Disasm           bare-metal-16bit/disasm.c: an instruction's text and length, by `disasm`, and in
--                    Disasm.Listing the program that lists a file. Each of its loops has fuel for a
--                    round a byte of the file and one more, which is enough, since a round goes on by a
--                    byte or more.
-- Left out of the simulator: the debugging printf calls of emulate.c, the option parsing of
-- runsim.c and what its options print, and the formats in which disasm.c prints the rows of a listing.
--
-- The threading library. threading-lib/qthread.c and threading-lib/qthread_manager.c keep threads on
-- queues that are linked through a field of the threads.
--   Threads.Queue    the queues in memory. A thread is its address, memory gives the `next` field at
--                    each address, and an access where there is no thread is a fault.
--   Threads.Sync     the mutex and the condition variable: creation, unlock, signal, broadcast.
--   Threads.Schedule the scheduler, and what calls it: creation, yield, lock, the wait for a condition,
--                    exit, join and usleep, each up to its context switch, which the result names.
--                    What `get_usecs` returns is a list, and a reading past its end is no result; a
--                    round of the loop that waits for a sleeper takes one reading.
--   Threads.Exclusion runs of any number of threads that share a mutex and a condition variable, as a
--                    relation of steps, one for each operation of the library. Who holds the mutex is
--                    written down beside the code's state, and the place of each thread (a queue, the
--                    processor, a join, nowhere) is a function that the proofs carry along.
-- Left out of the threading library: the stacks and the context switch in assembly, what the threads
-- compute between two operations, the destroy functions, a `malloc` that fails, and the bounds of
-- `int` on the size of a queue and of `long` on the times.
--
-- The shell. The loop of unix-shell-from-scratch reads a line, which parser.c takes apart and
-- linked_list.c makes a list of commands.
--   Shell.Parser     parser.c. The arrays of `parse` are the lists of what has been written to them,
--                    which may be more than they hold.
--   Shell.Commands   linked_list.c, on tokens as `strcmp` tells them apart. A pointer to a command is
--                    its number. The loop has fuel for a round a token, which is enough, since a round
--                    takes a token or more. Shell.Commands.Walk has the walks along the list, the
--                    freeing among them, with fuel for as many steps as the list has commands.
--   Shell.Os         what the shell asks of the operating system: which calls succeed, and the status
--                    word of each process, are the fields of a record `Os` of which nothing is
--                    assumed but what a theorem names. A state of the shell has its descriptors, the
--                    children it has started, each with what it comes to, the processes it has waited
--                    for and the text of `$?`. A child has a copy of the descriptors.
--   Shell.Files      the table of descriptors, with `open`, `close` and `dup2` as POSIX has them.
--   Shell.Internal   `exit`, `pwd` and `cd` of internal_commands.c.
--   Shell.External   external_commands.c, and the redirection of internal_commands.c.
--   Shell.Loop       command_loop.c: the loop over the commands of a line, from their list.
--   Shell.Pipes      checkAndRunPipes and modify_tokens_array of external_commands.c, which no other
--                    file calls: all pipes of a line are made before the first command starts. The
--                    loops over the array of tokens have fuel for a round a token and one more, which
--                    is enough, since a round goes on by a token; reading behind the array is no result.
--   Shell.Main       shell56.c: the arguments, and the loop over the lines, with fuel for a line a byte
--                    of the input, which is enough, since a line takes a byte or more. A session ends
--                    with the input, by an exit, or in an undefined state, where parse writes past the
--                    end of one of the two arrays; a loop in it that did not end would give no session.
-- Left out of the shell: what it prints to the standard error, the prompt, SIGINT, a failure of
-- `pipe` or `malloc`, the buffer that the children share with the shell's standard input, what a child
-- does as a second shell, and two functions that nothing calls: arrayLength and printCommandList. Three
-- things that C leaves undefined have a meaning here: `atoi` of a number that an `int` does not hold is
-- the number, `isspace` of a byte of 128 and more is false, and the text of `$?` before the first
-- status, which is not set, is any text. `childPids` is a list without a bound; a list of commands
-- that the shell makes of a line has one command less than the array has entries, at most.
mod Prelude
pub mod Cpu
pub mod Disasm
pub mod Emulator
pub mod Runsim
pub mod Shell
pub mod Threads
