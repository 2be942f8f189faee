-- ===== src/Lib.antt =====
-- The impedance matcher, a third-stage boot loader for ARM boards: it finds out which board it runs
-- on, finds the device tree for it, adapts the tree and starts the kernel with it.
--
-- The program and its model, file by file:
--   Base        types.h: integers of a width are natural numbers with their wrap-around written
--               out. The RAM and the string literals are functions from addresses to bytes (View),
--               and a loop that may not end or a read that is undefined has a Result.
--   Str, Ram    string.c: the functions that read strings and areas, and those that write them.
--               Str/Length, Str/Find, Str/Compare, Ram/Fill and Ram/Copy hold their theorems.
--   Hex         string.c: gethexaddr and getaddrs, which read the addresses of the kernel and of the
--               device tree from the command line.
--   Machine     register.c: readl and writel. A machine is its RAM and the history of the accesses
--               to its registers, newest first; a device answers each read from the history before
--               it. A Cmd is a step of the machine: it returns, panics (a loop that never ends),
--               reads something undefined or runs out of fuel. Machine/Prints says what a step puts
--               on the serial line, Machine/Bind of two steps together.
--   Uart        serial-8250.c, serial-bcm63xx.c and, in Uart/Exynos, serial-exynos.c. Each fills the
--               record Serial, the interface that serial.h is for print.c.
--   Print       print.c, for any serial driver.
--   Endian      types.h and endian.h: the byte orders, and libfdt/libfdt_env.h, which dtbs.c and
--               atags_to_fdt.c use; a word in the RAM.
--   Fdt         what the program uses of libfdt. The functions that it calls are the record Fdt, a
--               parameter. The inline functions and macros of libfdt/libfdt.h and libfdt/fdt.h are
--               modelled: Fdt/Header has the header of a tree and its fields, Fdt/Errors the error
--               codes. Fdt/Contract states what libfdt.h documents of the called functions, about
--               one call each; the theorems that rely on it have it as a hypothesis. What
--               fdt_open_into and fdt_pack keep of a tree is not documented, so what a tree says is
--               said between the two. ReadsTree of AtagsToFdt/Cells, a hypothesis as well, says that
--               the library looks only at the bytes of a tree's buffer.
--   Dtbs        dtbs.c: the search through the chain of device trees behind the loader.
--   Atags       atags.h: the walk over the boot loader's tagged list. Atags/Struct has the structs
--               of libfdt/setup.h and their layout, Atags/Encoded a list of tags as words.
--   AtagsToFdt  libfdt/atags_to_fdt.c: the tags folded into a tree, in Access its accessors of the
--               tree. Local arrays stand at addresses of the RAM; a write past the end of
--               mem_reg_property is undefined. Memory, Collected, Collecting, Folded, Walked, Cells,
--               Opened and Merged go from one memory tag to the whole; CommandLine, Bootargs and
--               Joined are about merge_fdt_bootargs, Chosen about the initrd and the serial
--               number, Errors about the accessors.
--   Boards      one module for each board file: board-bcm63xx.c, board-exynos.c, board-dreamplug.c,
--               board-generic.c and board-raumfeld.c. Boards/Shared has board.h, what a loader is
--               linked with (Platform), and the end that three of the match_board share. Of the
--               Raumfeld boards, Table has the boards, Fixups what is written to the tree, Led the
--               LEDs, Tags, LastLine and Passed the two sources of the revision and the command line,
--               Select and Ends how match_board ends, and Match the whole.
--   Matcher     main.c, which calls the match_board of the board file that is built in. Start, Boot
--               and Fixed have its end without and with a fixup, Says what the tree says before it
--               is packed. Loader, Bcm63xx, Exynos, Dreamplug, Generic, Raumfeld and, with a passed
--               tree, Raumfeld/Passed put main and a match_board together, Raumfeld/Sees a fixup too.
--   Tests       the functions and theorems at concrete inputs.
--
-- A pointer is a number, NULL is 0. A pointer to a literal of the program is a View of its own,
-- since literals are not written; `board.compatible` is the text itself, `none` for NULL. A static
-- variable is passed along. Bytes are unsigned, as char is on ARM, and words are little-endian. The
-- shifts of gethexaddr wrap at 32 bits.
--
-- Fuel bounds the loops that end at a NUL, at a header without the magic number, at a tag of size 0
-- or when a register has a bit set. Enough is more than the length of the string, the number of the
-- trees or of the tags; for a register, that the bit comes within the polls. 51 is enough for every
-- literal of the program. The endless blinking of the LEDs is cut after a number of rounds, which is
-- arbitrary.
--
-- Not modelled: libfdt (libfdt/fdt*.c and what only it uses of its headers), another project's
-- library, of which Fdt lists what the program calls; the assembly that sets the stack pointer; the
-- Makefile, the linker scripts and the shell scripts. The addresses and options that the build sets
-- are parameters.
pub mod Base
pub mod Str
pub mod Ram
pub mod Hex
pub mod Machine
pub mod Uart
pub mod Print
pub mod Fdt
pub mod Dtbs
pub mod Atags
pub mod Boards
pub mod Matcher
pub mod Tests
pub mod Endian
pub mod AtagsToFdt
