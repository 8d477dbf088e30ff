-- ===== src/Lib.antt =====
-- Verification of the C parts of the QAR DevKit: the hardware abstraction layer under devkit/hal,
-- the SDK bootstrap in devkit/sdk, the C examples in devkit/examples, the host tools elf2qar and
-- qhex under devkit/tools, and, of the hardware below the HAL, the CAN controller, the pins and the
-- timer of qar-core/rtl.
--
-- How the parts interact. A program for the core uses the HAL; the SDK's qar_sdk_init uses its
-- functions and registers to bring every peripheral into a known state, and the examples are such
-- programs. The HAL's accesses reach the registers of the Verilog modules. On the host, elf2qar
-- turns an ELF file into hex files of 32-bit words, and qhex reads such a file, reports on it and
-- turns it into a binary image.
--
-- Mmio.antt models devkit/hal/mmio.h: a driver is a tree of volatile reads and writes that branches
-- on the answers. The hardware is a parameter: a Bus on any type of states, with the buses of Rtl
-- among them. Theorems that need it have a Device (Mmio/Device.antt): an address has a number of
-- bits, and an address with a positive number is a configuration register that holds what was
-- written to it. Mmio/Polling.antt has the loops that poll a flag, Mmio/Until.antt those that poll
-- for a test, and Mmio/Masks.antt the read-modify-write of a mask.
--
-- Hal/Gpio, Uart, Timer, Can, Adc, I2c and Spi model the headers of those names: registers and
-- flags as data types with their offsets and masks, and one function for each C function, with the
-- prefix qar_uart_ and its like left out. A polling loop of the source has no bound; in the model
-- it takes a budget of polls, and the theorems hold for every budget. The laws are in Hal/Transfers
-- (polled transfers), Hal/Interrupts (interrupt masks), Hal/Fields (packed words), Hal/Order (order
-- of the accesses) and Hal/Windows (which addresses are accessed).
--
-- Sdk.antt models devkit/sdk/hal_init.c and devkit/sdk/runtime.c block by block; Sdk/Boot.antt is
-- about the state after the bootstrap, which registers are at rest and which have a setting, and
-- Sdk/Windows.antt about the addresses.
--
-- Examples models the programs of devkit/examples/c and devkit/examples/timer_hal_example.c, a
-- module for each: CanLoopback, GpioIrq, I2cLoopback, LinHeader, SpiLoopback, TimerPwm, TimerHal,
-- and Rs485 for uart_rs485.c and uart_rs485_isr.c, whose send_byte, declared nowhere, is a
-- parameter. A main is modelled up to the loop in which it stays; GpioIrq.main and TimerPwm.main
-- take any number of rounds of theirs. TimerPwm.ramp has fuel for its rounds, of which 17 are
-- enough from 0 on. The laws stand in child modules, of which CanLoopback/OnController runs the
-- example on the CAN controller, with the send commands of a run in CanLoopback/Commands, and
-- Rs485/Counts is about the interrupt handler between any moves of the hardware; Examples/Mapped is
-- about the addresses.
--
-- Rtl models qar-core/rtl/can.v (Rtl/Can), qar-core/rtl/gpio.v (Rtl/Gpio) and qar-core/rtl/timer.v
-- (Rtl/Timer): the registers, one function for the register writes and one for the reads, by the
-- word of the address that qar-core/rtl/qar_core.v takes. The CAN registers change with writes
-- alone, so a step is a write. The pins and the timer have a step for each clock: a write, and what
-- the registers before it assign on top, in the order in which the assignments count. Can/Queue and
-- Can/Slots join the registers to a queue of four frames, Can/Reads is about what the reads show,
-- Can/Driver and Can/RoundTrip run devkit/hal/can.h on it. Gpio/Samples and Gpio/Debounce are about
-- the level of a debounced pin, Gpio/Driver about its read, Gpio/Edges about its interrupt.
-- Timer/Ticks and Timer/Channel are about one tick, Timer/Watchdog about the kick of
-- devkit/hal/timer.h, Timer/Phase and Timer/Pwm about its PWM channels, and Timer/Running has the
-- counter as the clock of the GPIO example, where each access takes some clocks, of a number that
-- is an argument.
--
-- Libc models what the tools use of the C library: fgets, fread, fseek, the scanning of numbers and
-- the printing of words. What the host decides (which allocations, opens, seeks and writes succeed)
-- is an argument.
--
-- Elf2qar models devkit/tools/elf2qar/main.c: Image (image_t and its operations), Elf (the ELF
-- headers), Load (the loop over the segments), Program (options and main). Accesses that C leaves
-- undefined are results of their own. Load/Expected describes what the segments are to come to, by
-- the file as a whole and two memories, and Load/Refines joins the two; Program/Verdict does so for
-- main, with Program/Whole and Program/Defined, and Program/Arguments for the options.
--
-- Qhex models devkit/tools/qhex/main.c: Buffer (word_buffer, append_word, with the sizes that are
-- requested in Buffer/Growth), Reader (the loop of main over the lines), Binary (write_binary),
-- Program (arguments and main, with the laws in Program/Arguments and Program/Whole). The reading
-- loop has fuel for one line more than the file has characters, which is enough since a line has
-- one at least.
--
-- Pipeline.antt joins the two tools: the hex file of an image, read back; Pipeline/Whole does so
-- for the two mains.
--
-- Tests has runs on concrete inputs, with a memory as the device.
--
-- Not modelled: the messages of the tools, closing and freeing, the endless loops that do nothing
-- at the end of the examples, the assembly start-up, the Go command line, and of the Verilog the
-- RISC-V core, the other peripherals, and the interrupt and output lines of the three that are
-- modelled.
pub mod Prelude
pub mod Mmio
pub mod Hal
pub mod Sdk
pub mod Libc
pub mod Qhex
pub mod Elf2qar
pub mod Rtl
pub mod Examples
pub mod Pipeline
pub mod Tests
