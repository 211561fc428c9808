-- ===== src/Lib.antt =====
-- A model of librxvm, a library that compiles regular expressions to programs of a small virtual
-- machine and runs these over a text.
--
-- An expression goes through three parts. The lexer (librxvm/lex.c) cuts it into tokens. The first
-- stage (librxvm/stage1.c) reads the tokens, keeps lists of instructions (librxvm/stack.c) for the
-- open parentheses, and has the operators' code made by librxvm/vmcode.c, with jumps relative to
-- where they stand; a string builder (librxvm/string_builder.c) gathers character classes, and
-- librxvm/lfix.c tracks the longest substring that every match contains. The second stage
-- (librxvm/stage2.c) turns the lists into a program with absolute jumps and shortens chains of jumps.
-- The virtual machine (librxvm/vm.c) then runs all threads of the program over each character in turn,
-- with one queue for this character and one for the next; librxvm/rxvm.c gives it a string and turns
-- what it leaves into the results of rxvm_match and rxvm_search. rxvm_fsearch gives it a file through a
-- buffer, or finds literals and fixed substrings by the Boyer-Moore-Horspool search of librxvm/bmh.c.
-- librxvm/randinput.c follows one thread
-- at random to write a text. An expression of literals alone is
-- not compiled: simple_match compares it as it stands.
--
-- Files, with the code that each is about:
--   Prelude           shared names; `Outcome`, where `fault` is an access outside an object and
--                     `out_of_fuel` a loop that was cut off; Boolean tests, lists, signed integers
--   Inst              librxvm/rxvm_common.h and librxvm/setop.c: `struct inst`, the set_op functions
--   Err, Token        librxvm/rxvm_err.h; the tokens of librxvm/lex.h
--   Lex               librxvm/lex.c: lex with one function for each of its states
--   Stack             librxvm/stack.c: a list as the sequence of its instructions in program order
--                     Stack/Links the linked list itself, Stack/Relink to Stack/Cat about its operations
--                     against those on the sequence
--   Vmcode            librxvm/vmcode.c: the functions code_one, code_zero and so on, by name;
--                     Vmcode/Closed and Vmcode/Ahead are the notion of code that can be moved,
--                     Vmcode/Blocks the code of each operator as one sequence, Vmcode/Keeps and
--                     Vmcode/Alt that the operators keep it closed
--   Code              what generated code means: Code/Runs the runs through it, Code/Split how they split
--                     where closed code stands in a program, Code/Relations and Code/Counts relations
--                     between places of a text, Code/Blocks, Code/Repeats and Code/Choice the code of the
--                     operators, Code/Operators, Code/Generate and Code/Alternation the functions that
--                     make it, Code/Accepts the programs that it becomes
--   Stage1            librxvm/stage1.c: Stage1/Context the state, Stage1/Operator the switch of
--                     process_op and the fields of a repetition, Stage1/Main stage1_main_state,
--                     Stage1/Charc stage1_charc_state, Stage1/Whole the loop; Stage1/Rep about the
--                     operators, Stage1/StepHalts and Stage1/Halts about the ends of the loops,
--                     Stage1/Plain, Stage1/Store, Stage1/Keeps, Stage1/Compiles, Stage1/Tokens,
--                     Stage1/Closes, Stage1/Rounds, Stage1/Ends, Stage1/Returns about the lists that it keeps
--   Stage2            librxvm/stage2.c; Stage2/Relocate about the relocated program, Stage2/Jumps and
--                     Stage2/Shortens about setting a jump, Stage2/Chains and Stage2/Same about
--                     optimise_chains, Stage2/Finishes about stage2
--   Lfix              librxvm/lfix.c and librxvm/lfix_to_str.c
--   Strb              librxvm/string_builder.c
--   Vm                librxvm/vm.c and librxvm/vm.h: exec_op is the switch, run_threads the loop over
--                     the threads, after_threads what follows it, vm_loop the loop over the input;
--                     Vm/Spec says what a program accepts with no queues, Vm/Queue to Vm/Loop relate
--                     the queues to it
--   Rxvm              librxvm/rxvm.c: simple_match, rxvm_match and rxvm_search; Rxvm/Loop and
--                     Rxvm/Match about rxvm_match with a program, Rxvm/Literals without one
--   Compile           librxvm/rxvm.c: rxvm_compile; Compile/Formed about what it fills the record with,
--                     Compile/Refines about both stages and the machine together
--   Gen               librxvm/randinput.c: gen_op is the switch of rxvm_gen, gen_loop its loop; Gen/Nchar
--                     about find_nchar, Gen/Writes and Gen/Accepted about the text, Gen/Ends about its end
--   File              the functions of stdio.h, with what they promise for a regular file, and a file in memory
--   Bmh               librxvm/bmh.c; Bmh/Buffer and Bmh/Skip about fill and skip, Bmh/Table and
--                     Bmh/Compare about the table and the comparison, Bmh/Finds, Bmh/Search and Bmh/Whole
--                     about the search
--   Fsearch           librxvm/rxvm.c: Fsearch/Reader getchar_file, Fsearch/Seek the start of a line,
--                     Fsearch/Run bmh_partial and rxvm_fsearch; Fsearch/Feeds about the reader,
--                     Fsearch/Lines about the start of a line, Fsearch/Literals, Fsearch/Machine and
--                     Fsearch/Partial about rxvm_fsearch, with Vm/Streams
--   Print             librxvm/rxvm.c: rxvm_print, rxvm_print_err
--   Samples           runs and theorems at concrete inputs
--
-- State. A struct is a record with the fields of the source. A pointer into a string is an index, or
-- the rest of the string; a read behind the terminator is a fault, except in the lexer, where it never
-- happens behind it by more than one and is 0. A queue of the machine is the part of its array below
-- its size, so that swapping pointers is swapping queues. The first stage refers to lists of
-- instructions by index into a store, so that its pointers target, buf and parens share lists as in
-- the source, and to an item by its list and its place in it. The variables that outlive a call of
-- rxvm_compile are the record Globals.
--
-- Bounds. Characters are natural numbers below 256. Where their order decides, in expand_char_range, a
-- plain char is signed: 127 is the highest, and counting it up gives the lowest, 128. The space of a
-- string builder grows by an int, which a product of 32 bits is made, and wraps around at 2 ^ 64.
-- The counters of lfix.c, the variables of bmh.c and the depth of
-- parentheses wrap around at 2 ^ 32. Other indices and sizes are unbounded, and so are
-- repetition counts, since an int that overflows has no defined value. Allocation is a parameter in the
-- machine, the string builder and the generator; in the compiler it is taken to succeed, since a test
-- for it is missing there in one place. Freeing memory is left out.
--
-- Fuel. run_threads gets one more than the program has instructions, since a queue holds an index once
-- at most. vm_loop gets one unit for each character of the input and its terminator in rxvm_match,
-- and two in rxvm_search, where a character may be scanned a second time from the start of the
-- program. lex gets two for each character and two more, since only the first state keeps its
-- character. The loop over the literals at the start gets one for each character and one more, since
-- each takes a character away, and the loop of the first stage one more than that, for an error.
-- count_digits gets one more than the number that it divides, follow_chain one more than the number of
-- instructions, and expand_loop one more than there are characters, so that it runs out of fuel
-- exactly where the source does not end.
--
-- The loop of rxvm_gen takes its fuel as an argument, since with an unlucky rand it need not end before
-- its limit; find_loop gets 192, which is more than twice the printable characters.
--
-- Parameters. The results of rand in librxvm/randinput.c are a function from the number of the call.
--
-- The functions fread, ftell and fseek are fields of the record Stdio, over a type of files, and what
-- they do to a regular file are the fields of IsRegular; what printf writes for a number is a function.
--
-- In a file search EOF is stored in a char and compared with one: the byte 255 stands for it. The
-- buffer of librxvm/bmh.c has a size that is a parameter, 8192 in the source. Its loop gets one unit of fuel for each byte of the file and one more, since each
-- round moves the window; a round of seek_to_start_of_line takes a character at least off its place. The
-- loop of bmh_partial and the machine's in rxvm_fsearch take their fuel as an argument.
--
-- Not modelled: freeing, the Python bindings (pyrxvm), the examples and the tests.
pub mod Prelude
pub mod Inst
pub mod Vm
pub mod Err
pub mod Token
pub mod Lex
pub mod Stack
pub mod Vmcode
pub mod Stage1
pub mod Stage2
pub mod Lfix
pub mod Strb
pub mod File
pub mod Bmh
pub mod Rxvm
pub mod Fsearch
pub mod Print
pub mod Code
pub mod Compile
pub mod Gen
pub mod Samples
