-- ===== src/Lib.antt =====
-- A verification library for the programs of this repository: small C programs that share no code.
-- Each is modelled in a module of its own over `Base`.
--
-- Base: the names that all modules share; Boolean tests on native numbers (Base/Tests), C arrays
-- and strings as lists (Base/Lists), machine words with their wrap-around (Base/Word), and laws of
-- the bit operations (Base/Bits, Base/Bits/Xor).
--
-- Mips: the assembler and disassembler of `MIPS Convertor/`.
--   Mips/Isa       include/instruction.h and src/instr_table.c: enumerations, structures, tables
--   Mips/Encode    encode of src/hw1.c, Mips/Decode decode, Mips/Endian bigEndian
--   Mips/Text      the string helpers of src/hw1.c, Mips/Args its validargs
--   Mips/Main      the loops of src/main.c for -a and -d
--   The main loops call encode and decode on one instruction at a time; validargs gives them the
--   start address and the byte order. An int and an unsigned int are bit patterns below 2 ^ 32; a
--   struct that the code changes through a pointer is passed on as a value. sscanf is a parameter.
--   Standard input and output are lists. The loops are recursions on their input, with no fuel.
--   Mips/Fields and Mips/RoundTrip hold what is shown of encode with decode; Mips/Main/Laws,
--   Mips/Rejects and Mips/Args/Options what is shown of the loops and of validargs.
--
-- Audible: the recoder of Sun audio streams of `audible/`.
--   Audible/Options   validargs of src/hw1.c with its helpers, over the 64-bit global_options
--   Audible/Stream    readBytes, writeBytes and the functions on headers, annotations and frames
--   Audible/Crypt     src/myrand.c, and the part of recode for -c
--   Audible/Speed     the part of recode for -u
--   Standard input is a list of bytes. Whether putchar returns EOF is a parameter. The buffers of
--   frames are the int that the code reads and writes of them. A shift of an int takes its count
--   modulo 32, as the machine does; the language leaves it undefined. The part of recode for -d
--   and the change of the annotation are not modelled.
--
-- Imprimer: the terminal multiplexer of `imprimer/`.
--   Imprimer/Vscreen   src/vscreen.c: the screen as a record, the curses calls as a list
--   Imprimer/Session   src/session.c: the table of sessions and session_init in the parent
--   isprint is a parameter; the numbers of lines and columns and the results of posix_openpt and
--   fork are arguments. The main loop is input and output, and is not modelled.
--
-- Spooler: the print spooler of `Printer Spooler/`.
--   Spooler/Printers   src/printer.c, Spooler/Jobs src/job.c, Spooler/Types src/list.c
--   Spooler/Search     look, backtrack and bfs of src/list.c
--   Spooler/Text, Spooler/Commands   src/main.c: tokens and numbers; print, find_bfs, process_print,
--     the part of fork_conv of the main process, and the commands (Spooler/Commands/Mode)
--   A linked list is a list, a pointer into one is the element that it points to, and a chosen
--   printer is the number of a printer. An access to freed memory is an outcome of its own;
--   so is a crash, which is a write past the 128 entries of queue or result of the search or the use
--   of a NULL pointer. Printed status lines are left out. One call for each type and one more are enough fuel for the search,
--   since each call that goes on visits a type (Spooler/Search/Fuel). process_print has fuel for a
--   walk over the jobs for each queued one and one more (Spooler/Commands/Printing), and the arrays
--   have room for it within the bounds of Spooler/Commands/Room. The clock and
--   WIFEXITED are arguments. The child processes, the options and the reading of lines are not modelled.
--
-- Xacto: the transactional store of `xacto/`.
--   Xacto/Registry      src/client_registry.c: what runs under the mutex is one step; in
--     creg_unregister the test of val and the V are steps of their own
--   Xacto/Protocol      src/protocol.c, over rio_writen and rio_readn of csapp.c as parameters
--   Xacto/Transaction   src/transaction.c: a heap of transactions; each function runs alone
--   Xacto/Data          src/data.c: blobs and keys
--   Xacto/Service       src/server.c with the stubs of src/store.c: the service of one client
--   The service calls the protocol for packets, the transactions for the one that it holds, and the
--   registry. Its inbox is what the calls of proto_recv_packet give; each round takes a packet, so that
--   one round more than there are packets is enough fuel. store_show of src/store.c, which does not
--   compile as it stands, is an argument: whether a call of it returns. The interleavings of the
--   threads at work on the registry are a step relation (Xacto/Registry/Count). Versions, and threads that run between the steps of a commit, are
--   not modelled; src/main.c is sockets, signals and threads.
--
-- Snarf: the HTTP client of `snarf/`.
--   Snarf/Strings   the functions of the C library that it uses
--   Snarf/Url       src/url.c, Snarf/Http src/http.c
--   The stream of a connection is the bytes sent and the bytes that the server will still send. What
--   sscanf reads of the status line, the result of gethostbyname and whether a write fails are
--   parameters. Memory is taken to be there. The length of the input is the fuel of the loop over
--   header lines, each of which has a byte. src/args.c and src/snarf.c are getopt, files and output.
--
-- Grades: the grade book of `grades/`.
--   Grades/Records, Grades/Read   include/gradedb.h, src/read.c and the counts of src/error.c: the
--     reader of course files, with the token buffer, the file that is read and the files below it
--   Grades/Write      src/write.c: the text of a course
--   Grades/RoundTrip  what is written is read; a word that is too long; LINEAR
--   Grades/Sort       src/sort.c: the sort of a roster, for any comparison, and two comparisons
--   A file is the list of its bytes; opening files, floats, sscanf and printf are parameters, and so
--   is what malloc gives for an assignment and a score. fatal, a write past the token buffer and the
--   end of the fuel are three ways to stop. Each call of a reader of a list takes one of the fuel, and
--   six more than the length of the file are enough (Grades/RoundTrip/File); a file that includes
--   itself is read for ever. A table of pointers is a list. The fuel of sorttable is the depth of its
--   calls; a call whose partition puts no student low calls itself on the same range, and two calls
--   for each student are enough (Grades/Sort/Rounds, Grades/Sort/Sorted). The statistics, the reports
--   and the options of the program compute with floating point numbers and print, and are not modelled.
--
-- Not modelled: sfmm; bavarde, budmm and Intro, which are stubs
-- or examples; csapp.c, which is third-party code; the test suites.
pub mod Base
pub mod Mips
pub mod Imprimer
pub mod Spooler
pub mod Audible
pub mod Xacto
pub mod Snarf
pub mod Grades
