-- ===== src/Port.antt =====
-- The ports in arch/: how registers are saved on a task's stack and come back from it, for the AVR and
-- the MSP430, the contexts and signals of Linux, and the atomic accesses.
pub mod Stack
pub mod Avr
pub mod Words
pub mod Msp430
pub mod Linux
pub mod Atomic
